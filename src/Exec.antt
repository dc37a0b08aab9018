-- ===== src/Exec.antt =====
-- Calls that read and write a state and may fail. What was written before an error stays written:
-- the state comes back beside the error too.
pub mod Invert
pub mod Keeps
use learn_go_project.Prelude.{Option, none, some}
use learn_go_project.Errors.{Error, Result, ok, err}

abbrev pub Exec : Type 0 → Type 0 → Type 0
Exec S A = S → Result A × S

module _ {S A B : Type 0} where
  -- An error ends the function, and what was written stays.
  abbrev pub continue : Result A → (A → Exec S B) → Exec S B
  continue (err e) rest s = (err e, s)
  continue (ok a) rest s = rest a s

  infixl 5 ◌>>=◌ ◌>>◌
  abbrev pub ◌>>=◌ : Exec S A → (A → Exec S B) → Exec S B
  ◌>>=◌ step rest s = let out = step s in continue out.0 rest out.1

  abbrev pub ◌>>◌ : Exec S A → Exec S B → Exec S B
  step >> rest = step >>= λ _. rest

-- What a statement sent on its own, or a COMMIT, can come to: done, undone, or done with the answer
-- lost on the way.
pub data Commit : Type 0 where
  committed : Commit
  aborted : Error → Commit
  unanswered : Error → Commit

abbrev pub map_result : {A : Type 0} → (Error → Error) → Result A → Result A
map_result f (ok a) = ok a
map_result f (err e) = err (f e)

module _ {S A : Type 0} where
  abbrev pub pure : A → Exec S A
  pure a s = (ok a, s)

  abbrev pub lift : Result A → Exec S A
  lift r s = (r, s)

  -- A call of a service: it fails, if it does, before it has an effect.
  abbrev pub call : Option Error → Exec S A → Exec S A
  call none m s = m s
  call (some e) m s = (err e, s)

  abbrev pub map_error : (Error → Error) → Exec S A → Exec S A
  map_error f m s = let r = m s in (map_result f r.0, r.1)

  -- A statement outside a transaction: an answer that is lost does not undo it.
  unfoldable pub send : Commit → Exec S A → Exec S A
  send committed m s = m s
  send (aborted e) m s = (err e, s)
  send (unanswered e) m s = (err e, (m s).1)
