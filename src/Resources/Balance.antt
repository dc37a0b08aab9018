-- ===== src/Resources/Balance.antt =====
-- Logs in which each resource is used while it is open, and closed once, in the reverse order.
use mathlib.Core.List.{append_assoc, append-nil}
use learn_go_project.Prelude.{
  ◌≡◌, refl, sym, ◌∙◌, ap, Bool, true, false, ◌||◌, ◌==◌, eq_refl, Option, none, some, List, [],
  ◌∷◌, ◌++◌, if◌then◌else◌,
}
use learn_go_project.Errors.{Result, ok, err}
use learn_go_project.Exec.{Exec, ◌>>=◌, continue, lift}
use learn_go_project.Resources.{
  Resource, pool, producer, consumer, Event, opened, used, closed, Log, acquire, call_on, deferred,
  close_if_failed,
}

abbrev pub is_same : Resource → Resource → Bool
is_same pool pool = true
is_same producer producer = true
is_same (consumer g) (consumer h) = g == h
is_same _ _ = false

is_same_refl : (r : Resource) → is_same r r ≡ true
is_same_refl pool = refl
is_same_refl producer = refl
is_same_refl (consumer g) = eq_refl g

abbrev pub is_held : Resource → List Resource → Bool
is_held r [] = false
is_held r (s ∷ held) = is_same r s || is_held r held

abbrev close : Resource → List Resource → Option (List Resource)
close r [] = none
close r (s ∷ held) = if is_same r s then some held else none

abbrev step : Event → List Resource → Option (List Resource)
step (opened r) held = if is_held r held then none else some (r ∷ held)
step (used r) held = if is_held r held then some held else none
step (closed r) held = close r held

abbrev bind :
    Option (List Resource) → (List Resource → Option (List Resource)) → Option (List Resource)
bind none rest = none
bind (some held) rest = rest held

-- What a log leaves open of the resources held, the last one first: none if it opens what is open,
-- uses what is not, or closes another one than the last.
unfoldable pub replay : List Event → List Resource → Option (List Resource)
replay [] held = some held
replay (e ∷ events) held = bind (step e held) (replay events)

replay-append :
    (xs ys : List Event) (held : List Resource)
    → replay (xs ++ ys) held ≡ bind (replay xs held) (replay ys)
unfolding replay
replay-append [] ys held = refl
replay-append (x ∷ xs) ys held =
    elim (step x held)
      as (λ o. bind o (replay (xs ++ ys)) ≡ bind (bind o (replay xs)) (replay ys)) [
        | none ↦ refl
        | some after ↦ replay-append xs ys after
      ]

-- What is open behind a call: `good` if it succeeds, else `bad`.
abbrev pub left_open : {A : Type 0} → List Resource → List Resource → Result A → List Resource
left_open good bad (ok a) = good
left_open good bad (err e) = bad

-- From a log on, a call that starts with `held` open leaves `good` open, or `bad` if it fails.
pub record Balanced {A : Type 0} (held good bad : List Resource) (log : Log) (out : Result A × Log)
    : Type 0 where
  pub events : List Event
  pub appended : out.1 ≡ log ++ events
  pub replayed : replay events held ≡ some (left_open good bad out.0)

pub record Balances {A : Type 0} (held good bad : List Resource) (m : Exec Log A) : Type 0 where
  pub from : (log : Log) → Balanced held good bad log (m log)

module _ {A B : Type 0} where
  continue-Balanced :
      (held good good' bad : List Resource) (log : Log) (out : Result A × Log)
      (rest : A → Exec Log B)
      → Balanced held good bad log out
      → ((a : A) → Balances good good' bad (rest a))
      → Balanced held good' bad log (continue out.0 rest out.1)
  continue-Balanced held good good' bad log (err e, l) rest b h = record {
    events = b.events;
    appended = b.appended;
    replayed = b.replayed;
  }
  continue-Balanced held good good' bad log (ok a, l) rest b h =
      let c = (h a).from l in
      record {
        events = b.events ++ c.events;
        appended =
            c.appended
            ∙ ap (λ (xs : Log). xs ++ c.events) b.appended
            ∙ append_assoc log b.events c.events;
        replayed = replay-append b.events c.events held ∙ rw b.replayed c.replayed;
      }

  pub >>=-Balances :
      (held good good' bad : List Resource) (m : Exec Log A) (rest : A → Exec Log B)
      → Balances held good bad m
      → ((a : A) → Balances good good' bad (rest a))
      → Balances held good' bad (m >>= rest)
  >>=-Balances held good good' bad m rest h k = record {
    from = λ log. continue-Balanced held good good' bad log (m log) rest (h.from log) k;
  }

module _ {A : Type 0} where
  pub lift-Balances : (held : List Resource) (r : Result A) → Balances held held held (lift r)
  unfolding replay
  lift-Balances held (ok a) = record {
    from = λ log. record { events = []; appended = sym (append-nil log); replayed = refl };
  }
  lift-Balances held (err e) = record {
    from = λ log. record { events = []; appended = sym (append-nil log); replayed = refl };
  }

  pub call_on-Balances :
      (held : List Resource) (r : Resource) (result : Result A)
      → is_held r held ≡ true
      → Balances held held held (call_on r result)
  unfolding replay call_on
  call_on-Balances held r (ok a) h = record {
    from = λ log. record { events = used r ∷ []; appended = refl; replayed = rw h };
  }
  call_on-Balances held r (err e) h = record {
    from = λ log. record { events = used r ∷ []; appended = refl; replayed = rw h };
  }

  ending :
      (held good bad : List Resource) (r : Resource) (log : Log) (out : Result A × Log)
      → Balanced held (r ∷ good) (r ∷ bad) log out
      → Balanced held good bad log (out.0, out.1 ++ closed r ∷ [])
  unfolding replay
  ending held good bad r log (ok a, l) b = record {
    events = b.events ++ closed r ∷ [];
    appended =
        ap (λ (xs : Log). xs ++ closed r ∷ []) b.appended
        ∙ append_assoc log b.events (closed r ∷ []);
    replayed = replay-append b.events (closed r ∷ []) held ∙ rw b.replayed (rw (is_same_refl r));
  }
  ending held good bad r log (err e, l) b = record {
    events = b.events ++ closed r ∷ [];
    appended =
        ap (λ (xs : Log). xs ++ closed r ∷ []) b.appended
        ∙ append_assoc log b.events (closed r ∷ []);
    replayed = replay-append b.events (closed r ∷ []) held ∙ rw b.replayed (rw (is_same_refl r));
  }

  -- A deferred close leaves open what was open before the resource, however the rest ends.
  pub deferred-Balances :
      (held : List Resource) (r : Resource) (rest : Exec Log A)
      → Balances (r ∷ held) (r ∷ held) (r ∷ held) rest
      → Balances (r ∷ held) held held (deferred r rest)
  unfolding deferred
  deferred-Balances held r rest h = record {
    from = λ log. ending (r ∷ held) held held r log (rest log) (h.from log);
  }

  pub close_if_failed-Balances :
      (held : List Resource) (r : Resource) (m : Exec Log A)
      → Balances (r ∷ held) (r ∷ held) (r ∷ held) m
      → Balances (r ∷ held) (r ∷ held) held (close_if_failed r m)
  unfolding close_if_failed
  close_if_failed-Balances held r m h = record { from = λ log. failed log (m log) (h.from log) }
    where
      failed :
          (log : Log) (out : Result A × Log)
          → Balanced (r ∷ held) (r ∷ held) (r ∷ held) log out
          → Balanced {A = A}
              (r ∷ held)
              (r ∷ held)
              held
              log
              (elim out.0 [ ok a ↦ (ok a, out.1) | err e ↦ (err e, out.1 ++ closed r ∷ []) ])
      failed log (ok a, l) b = record {
        events = b.events;
        appended = b.appended;
        replayed = b.replayed;
      }
      failed log (err e, l) b =
          let c =
            ending (r ∷ held) held held r log (err e, l)
              (record { events = b.events; appended = b.appended; replayed = b.replayed }) in
          record { events = c.events; appended = c.appended; replayed = c.replayed }

pub acquire-Balances :
    (held : List Resource) (r : Resource) (result : Result (Unit {0}))
    → is_held r held ≡ false
    → Balances held (r ∷ held) held (acquire r result)
unfolding acquire replay
acquire-Balances held r (ok a) h = record {
  from = λ log. record { events = opened r ∷ []; appended = refl; replayed = rw h };
}
acquire-Balances held r (err e) h = record {
  from = λ log. record { events = []; appended = sym (append-nil log); replayed = refl };
}

-- A resource is opened, and its close deferred over the rest.
pub guarded-Balances :
    {A : Type 0} (held : List Resource) (r : Resource) (opening : Exec Log (Unit {0}))
    (rest : Exec Log A)
    → Balances held (r ∷ held) held opening
    → Balances (r ∷ held) (r ∷ held) (r ∷ held) rest
    → Balances held held held (opening >>= λ _. deferred r rest)
guarded-Balances held r opening rest h k =
    >>=-Balances held (r ∷ held) held held opening (λ _. deferred r rest) h
      (λ _. deferred-Balances held r rest k)

module _ {A B : Type 0} (held : List Resource) (rest : A → Exec Log B)
    (h : (a : A) → Balances held held held (rest a)) where
  pub >>=-lift-Balances : (result : Result A) → Balances held held held (lift result >>= rest)
  >>=-lift-Balances result =
      >>=-Balances held held held held (lift result) rest (lift-Balances held result) h

  pub >>=-call_on-Balances :
      (r : Resource) (result : Result A)
      → is_held r held ≡ true
      → Balances held held held (call_on r result >>= rest)
  >>=-call_on-Balances r result open_now =
      >>=-Balances held held held held (call_on r result) rest
        (call_on-Balances held r result open_now) h
