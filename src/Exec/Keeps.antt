-- ===== src/Exec/Keeps.antt =====
-- Relations between the states before and after a call, one rule for each way to build a call.
use learn_go_project.Prelude.{Option, none, some}
use learn_go_project.Errors.{Error, Result, ok, err}
use learn_go_project.Exec.{Exec, continue, ◌>>=◌, lift, call, map_error}

-- `R` holds between the state before `m` and the state after, whether `m` succeeds or fails.
pub record Relates {S A : Type 0} (R : S → S → Type 0) (m : Exec S A) : Type 0 where
  pub at : (s : S) → R s (m s).1

module _ {S : Type 0} {R : S → S → Type 0} (R_refl : (s : S) → R s s) where
  pub Relates-lift : {A : Type 0} (r : Result A) → Relates R (lift r)
  Relates-lift r = record { at = R_refl }

  pub Relates-call :
      {A : Type 0} (o : Option Error) (m : Exec S A) → Relates R m → Relates R (call o m)
  Relates-call none m h = record { at = h.at }
  Relates-call (some e) m h = record { at = R_refl }

module _ {S : Type 0} {R : S → S → Type 0} where
  pub Relates-map_error :
      {A : Type 0} (g : Error → Error) (m : Exec S A) → Relates R m → Relates R (map_error g m)
  Relates-map_error g m h = record { at = h.at }

  module _ (R_refl : (s : S) → R s s) (R_trans : (s t u : S) → R s t → R t u → R s u) where
    continue-Relates :
        {A B : Type 0} (r : Result A) (f : A → Exec S B) (s t : S)
        → ((a : A) → Relates R (f a))
        → R s t
        → R s (continue r f t).1
    continue-Relates (ok a) f s t h k = R_trans s t (f a t).1 k ((h a).at t)
    continue-Relates (err e) f s t h k = k

    pub Relates-bind :
        {A B : Type 0} (m : Exec S A) (f : A → Exec S B)
        → Relates R m
        → ((a : A) → Relates R (f a))
        → Relates R (m >>= f)
    Relates-bind m f h k = record { at = λ s. continue-Relates (m s).0 f s (m s).1 k (h.at s) }
