-- ===== src/Simulator/Command/Times.antt =====
-- What the simulator sends: valid transactions, at times that increase.
use learn_go_project.Prelude.{
  ℕ, String, zero, suc, ◌+◌, ◌*◌, ◌<◌, ◌^◌, ◌≡◌, sym, ◌∙◌, ap, Bool, true, false, eqb,
  if◌then◌else◌, Option, none, some, List, [], ◌∷◌, ◌++◌, All, All-append, All-map, ℤ, pos, negsuc,
  pos_part, ◌+ℤ◌, ◌<ℤ◌, int64_exact, arith,
}
use learn_go_project.Float.{Float64}
use learn_go_project.Domain.{Merchant, TransactionCreated, FraudLabel, Time}
use learn_go_project.Simulator.{join, Rand, Printer, Generator, generate, build, draw}
use learn_go_project.Simulator.Command.{event_step, time_of}

event_step_pos : (interval : ℤ) → 0 < pos_part (event_step interval)
unfolding event_step
event_step_pos (pos n) = ground arith
event_step_pos (negsuc n) = ground arith

pub add_pos : (a b : ℕ) → pos a +ℤ pos b ≡ pos (a + b)
unfolding ◌+ℤ◌
add_pos a b = ground arith

-- Each time is before the times behind it.
abbrev pub IsChronological : List Time → Type 0
IsChronological [] = Unit
IsChronological (t ∷ rest) = All (λ u. t <ℤ u) rest × IsChronological rest

IsChronological-snoc :
    (ts : List Time) (new : Time)
    → IsChronological ts
    → All (λ t. t <ℤ new) ts
    → IsChronological (ts ++ new ∷ [])
IsChronological-snoc [] new h below = (tt, tt)
IsChronological-snoc (t ∷ ts) new h below = (
  All-append (λ u. t <ℤ u) ts (new ∷ []) h.0 (below.0, tt),
  IsChronological-snoc ts new h.1 below.1,
)

module _ (k : ℕ) (interval : ℤ) where
  abbrev pub step : ℕ
  step = pos_part (event_step interval)

  step_pos : 0 < step
  step_pos = event_step_pos interval

  pub time_exact : (n : ℕ) → n * step < 2 ^ 63 → time_of (pos k) interval n ≡ pos (k + n * step)
  unfolding time_of
  time_exact n h = ap (λ (d : ℤ). pos k +ℤ d) (int64_exact (n * step) h) ∙ add_pos k (n * step)

  -- The times of the first rounds.
  unfoldable pub times : ℕ → List Time
  times zero = []
  times (suc n) = times n ++ time_of (pos k) interval n ∷ []

  times_below : (n : ℕ) → n * step < 2 ^ 63 → All (λ t. t <ℤ time_of (pos k) interval n) (times n)
  unfolding times
  times_below zero h = tt
  times_below (suc n) h =
      let earlier : n * step < 2 ^ 63 = omega (arith, h) in
      let later : time_of (pos k) interval n <ℤ time_of (pos k) interval (suc n) =
        rw (time_exact n earlier) (rw (time_exact (suc n) h) (omega (arith, step_pos))) in
      All-append (λ t. t <ℤ time_of (pos k) interval (suc n)) (times n)
        (time_of (pos k) interval n ∷ [])
        (All-map (λ t. t <ℤ time_of (pos k) interval n) (λ t. t <ℤ time_of (pos k) interval (suc n))
          (λ t before. omega (arith, before, later)) (times n) (times_below n earlier))
        (later, tt)

  pub times-IsChronological : (n : ℕ) → n * step < 2 ^ 63 → IsChronological (times n)
  unfolding times
  times-IsChronological zero h = tt
  times-IsChronological (suc n) h =
      IsChronological-snoc (times n) (time_of (pos k) interval n)
        (times-IsChronological n (omega (arith, h))) (times_below n (omega (arith, h)))

join-time :
    (print : Printer) (id : String) (account : ℕ) (is_fraud : Bool) (occurred_at : Time) (delay : ℤ)
    (merchant : Option Merchant) (entry_mode : Option String) (amount : ℕ) (fraud_type : String)
    (t : TransactionCreated) (l : FraudLabel)
    → join print id account is_fraud occurred_at delay merchant entry_mode amount fraud_type
      ≡ some (t, l)
    → t.occurred_at ≡ occurred_at
unfolding join
join-time print id account is_fraud occurred_at delay (some m) (some e) amount fraud_type t l h =
    sym (
      ap
        (λ (o : Option (TransactionCreated × FraudLabel)). elim o [
          | none ↦ occurred_at
          | some x ↦ x.0.occurred_at
        ])
        h)
join-time print id account is_fraud occurred_at delay (some m) none amount fraud_type t l h =
    absurd (ground arith)
join-time print id account is_fraud occurred_at delay none entry_mode amount fraud_type t l h =
    absurd (ground arith)

module _ {F G : Type 0} ⦃f : Float64 F⦄ (rand : Rand F G) (print : Printer) where
  pub generate-time :
      (occurred_at : Time) (delay : ℤ) (g : Generator F G) (t : TransactionCreated) (l : FraudLabel)
      → (generate rand print occurred_at delay g).0 ≡ some (t, l)
      → t.occurred_at ≡ occurred_at
  unfolding generate draw build
  generate-time occurred_at delay g t l h = made (eqb g.accounts 0) h
    where
      made :
          (has_none : Bool)
          → (if has_none
              then (none, record g { next = g.next + 1 })
              else draw rand print occurred_at delay g).0
            ≡ some (t, l)
          → t.occurred_at ≡ occurred_at
      made true h = absurd (ground (arith, h))
      made false h = join-time print _ _ _ occurred_at delay _ _ _ _ t l h
