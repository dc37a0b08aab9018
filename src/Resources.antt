-- ===== src/Resources.antt =====
-- What the commands open and close: the pool of Postgres and the clients of Kafka, with `defer`.
--
-- A function appends to a log what it opens, uses and closes, and returns a result beside it.
pub mod Balance
use learn_go_project.Prelude.{
  String, Bool, true, false, ◌||◌, ◌==◌, Option, none, some, List, [], ◌∷◌, ◌++◌, if◌then◌else◌,
}
use learn_go_project.Errors.{Result, ok, err}
use learn_go_project.Exec.{Exec}

pub data Resource : Type 0 where
  -- *pgxpool.Pool
  pool : Resource
  -- the *kgo.Client of the producer, and the one of the consumer of a group
  producer : Resource
  consumer : String → Resource

pub data Event : Type 0 where
  opened used closed : Resource → Event

abbrev pub Log : Type 0
Log = List Event

-- x, err := open(); if err != nil { return err }
unfoldable pub acquire : Resource → Result (Unit {0}) → Exec Log (Unit {0})
acquire r (ok _) log = (ok tt, log ++ opened r ∷ [])
acquire r (err e) log = (err e, log)

module _ {A : Type 0} where
  -- a call on what is open
  unfoldable pub call_on : Resource → Result A → Exec Log A
  call_on r result log = (result, log ++ used r ∷ [])

  -- defer x.Close(), before the rest of the function
  unfoldable pub deferred : Resource → Exec Log A → Exec Log A
  deferred r rest log = let out = rest log in (out.0, out.1 ++ closed r ∷ [])

  -- if err := call; err != nil { x.Close(); return err }
  unfoldable pub close_if_failed : Resource → Exec Log A → Exec Log A
  close_if_failed r step log =
      let out = step log in
      elim out.0 [ ok a ↦ (ok a, out.1) | err e ↦ (err e, out.1 ++ closed r ∷ []) ]
