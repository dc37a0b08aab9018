-- ===== src/Stream/Pool/Shutdown.antt =====
-- The workers behind a `return` of `Run`: they empty their channels and end, and `Run` returns.
use learn_go_project.Prelude.{
  ℕ, ℤ, zero, suc, ◌+◌, ◌*◌, ◌≤◌, ◌<◌, ◌≡◌, refl, sym, ◌∙◌, ap, subst, Bool, true, false,
  false≢true, Bool-cases, ◌⊎◌, inl, inr, Option, none, some, Option-cases, length, eqb,
  if◌then◌else◌, arith,
}
use learn_go_project.Errors.{Error}
use learn_go_project.Stream.Consumer.{Record}
use learn_go_project.Stream.Pool.{
  Worker, Pool, worker_count, capacity, put, Step, look, hand, return_cancelled, return_error, join,
  take, skip, commit, leave, fail, exit, Reachable, after,
}
use learn_go_project.Stream.Pool.Order.{held}
use learn_go_project.Stream.Pool.Invariant.{
  IsBounded, Reachable-IsBounded, list-cases, worker_count_pos,
}
use learn_go_project.Stream.Pool.Bounds.{CanStep}

-- The steps that a worker has before it: one for each record in its channel, one for the record that
-- it handles, and one to end.
abbrev left : Worker → ℕ
left x = length x.queue + length (held x.handling) + (if x.is_stopped then 0 else 1)

total : ℕ → (ℕ → Worker) → ℕ
total zero workers = 0
total (suc n) workers = total n workers + left (workers n)

total-put_outside :
    (w : ℕ) (x : Worker) (workers : ℕ → Worker) (n : ℕ)
    → n ≤ w
    → total n (put w x workers) ≡ total n workers
unfolding total
total-put_outside w x workers zero h = refl
total-put_outside w x workers (suc n) h =
    let other : eqb n w ≡ false = ground arith in
    rw (total-put_outside w x workers n (omega arith)) (rw other refl)

total-put :
    (w : ℕ) (x : Worker) (workers : ℕ → Worker) (n : ℕ)
    → w < n
    → total n (put w x workers) + left (workers w) ≡ total n workers + left x
unfolding total
total-put w x workers zero h = absurd (omega arith)
total-put w x workers (suc n) h = elim (Bool-cases (eqb n w)) [
  | inl same ↦
      let n_is_w : n ≡ w = ground (arith, same) in
      rw same (
        rw (total-put_outside w x workers n (omega (arith, n_is_w))) (
          subst
            (λ (k : ℕ).
              total n workers + left x + left (workers w)
              ≡ total n workers + left (workers k) + left x)
            (sym n_is_w) (omega arith)))
  | inr other ↦
      rw other (let again = total-put w x workers n (ground (arith, other)) in omega (arith, again))
]

module _ (count : ℕ) where
  -- A worker that has a step less before it brings the end nearer.
  worker-total_lt :
      (s : Pool) (w : ℕ) (x : Worker)
      → w < count
      → left x < left (s.workers w)
      → total count (put w x s.workers) < total count s.workers
  worker-total_lt s w x known less = omega (arith, total-put w x s.workers count known)

  -- The steps that are left: those of the workers, and the end of the wait for them.
  remaining : Pool → ℕ
  remaining s = total count s.workers + (if s.is_joined then 0 else 1)

  worker-remaining_lt :
      (s : Pool) (w : ℕ) (x : Worker)
      → w < count
      → left x < left (s.workers w)
      → remaining (record s { workers = put w x s.workers }) < remaining s
  unfolding remaining
  worker-remaining_lt s w x known less = omega (arith, worker-total_lt s w x known less)

  -- Behind a `return`, under a cancelled context.
  record IsEnding (e : Option Error) (s : Pool) : Type 0 where
    ended : s.result ≡ some e
    cancelled : s.is_cancelled ≡ true

  held_one :
      (s : Pool) (w : ℕ) (r : Record)
      → (s.workers w).handling ≡ some r
      → length (held (s.workers w).handling) ≡ 1
  held_one s w r busy = ap (λ (o : Option Record). length (held o)) busy

  Step-remaining_lt :
      {s t : Pool} (e : Option Error)
      → Step count s t
      → IsEnding e s
      → (remaining t < remaining s) × IsEnding e t
  unfolding remaining
  Step-remaining_lt e (look unreturned top running no_errors none_left) h =
      absurd (ground (arith, unreturned, h.ended))
  Step-remaining_lt e (hand r rest unreturned top divides first room) h =
      absurd (ground (arith, unreturned, h.ended))
  Step-remaining_lt e (return_cancelled unreturned late) h =
      absurd (ground (arith, unreturned, h.ended))
  Step-remaining_lt e (return_error x rest unreturned top first) h =
      absurd (ground (arith, unreturned, h.ended))
  Step-remaining_lt e (join x ended unjoined all_stopped) h =
      (rw unjoined (omega arith), record { ended = h.ended; cancelled = h.cancelled })
  Step-remaining_lt e (take w r rest known running alive free first) h =
      absurd (false≢true (sym running ∙ h.cancelled))
  Step-remaining_lt {s} e (skip w r rest known late alive free first) h = (
    worker-remaining_lt s w _ known (omega (arith, ap length first)),
    record { ended = h.ended; cancelled = h.cancelled },
  )
  Step-remaining_lt {s} e (commit w r known busy) h = (
    worker-remaining_lt s w _ known (omega (arith, held_one s w r busy)),
    record { ended = h.ended; cancelled = h.cancelled },
  )
  Step-remaining_lt {s} e (leave w r known late busy) h = (
    worker-remaining_lt s w _ known (omega (arith, held_one s w r busy)),
    record { ended = h.ended; cancelled = h.cancelled },
  )
  Step-remaining_lt {s} e (fail w r x known busy) h = (
    worker-remaining_lt s w _ known (omega (arith, held_one s w r busy)),
    record { ended = h.ended; cancelled = h.cancelled },
  )
  Step-remaining_lt {s} e (exit w known closed alive free empty) h = (
    worker-remaining_lt s w _ known (rw alive (omega arith)),
    record { ended = h.ended; cancelled = h.cancelled },
  )

  -- So many steps, one after the other.
  pub data Steps (s : Pool) : ℕ → Pool → Type 0 where
    done : Steps s 0 s
    one_more : {t u : Pool} {n : ℕ} → Steps s n t → Step count t u → Steps s (suc n) u

  Steps-remaining_le :
      {s t : Pool} {n : ℕ} (e : Option Error)
      → Steps s n t
      → IsEnding e s
      → (n + remaining t ≤ remaining s) × IsEnding e t
  Steps-remaining_le e done h = (omega arith, h)
  Steps-remaining_le e (one_more steps step) h =
      let before = Steps-remaining_le e steps h in
      let now = Step-remaining_lt e step before.1 in (omega (arith, before.0, now.0), now.1)

  Steps-Reachable : {s t : Pool} {n : ℕ} → Steps s n t → Reachable count s → Reachable count t
  Steps-Reachable done reached = reached
  Steps-Reachable (one_more steps step) reached = after (Steps-Reachable steps reached) step

  -- The workers have all ended, or one has not.
  all_or_one :
      (workers : ℕ → Worker) (n : ℕ)
      → ((w : ℕ) → w < n → (workers w).is_stopped ≡ true)
        ⊎ ((w : ℕ) × (w < n) × ((workers w).is_stopped ≡ false))
  all_or_one workers zero = inl (λ w below. absurd (omega (arith, below)))
  all_or_one workers (suc n) = elim (Bool-cases (workers n).is_stopped) [
    | inr alive ↦ inr (n, omega arith, alive)
    | inl stopped ↦ elim (all_or_one workers n) [
      | inr (w, below, alive) ↦ inr (w, omega (arith, below), alive)
      | inl before ↦ inl (λ w below. elim (Bool-cases (eqb w n)) [
        | inl same ↦ subst (λ (k : ℕ). (workers k).is_stopped ≡ true) (n_is w same) stopped
        | inr other ↦ before w (ground (arith, other, below))
      ])
    ]
  ]
    where
      n_is : (w : ℕ) → eqb w n ≡ true → n ≡ w
      n_is w same = ground (arith, same)

  -- A worker that has not ended can go on, without a call of `handleRecord` that succeeds.
  worker-CanEnd :
      (s : Pool) (w : ℕ)
      → w < count
      → s.is_cancelled ≡ true
      → s.is_closed ≡ true
      → (s.workers w).is_stopped ≡ false
      → CanStep count s
  worker-CanEnd s w known late closed alive = elim (Option-cases (s.workers w).handling) [
    | inr (r, busy) ↦ (_, leave w r known late busy)
    | inl free ↦ elim (list-cases (s.workers w).queue) [
      | inr (r, rest, first) ↦ (_, skip w r rest known late alive free first)
      | inl empty ↦ (_, exit w known closed alive free empty)
    ]
  ]

  -- `Run` has returned, and all its workers have ended.
  abbrev pub HasReturned : Pool → Type 0
  HasReturned s = (s.is_joined ≡ true) × ((w : ℕ) → w < count → (s.workers w).is_stopped ≡ true)

  ending-CanStep :
      (s : Pool) (e : Option Error)
      → IsBounded count s
      → s.result ≡ some e
      → HasReturned s ⊎ CanStep count s
  ending-CanStep s e h ended = elim (Bool-cases s.is_joined) [
    | inl joined ↦ inl (joined, h.waited joined)
    | inr unjoined ↦ elim (all_or_one s.workers count) [
      | inl all_stopped ↦ inr (_, join e ended unjoined all_stopped)
      | inr (w, known, alive) ↦
          inr (worker-CanEnd s w known (h.shut e ended).0 (h.shut e ended).1 alive)
    ]
  ]

one_le : (b : Bool) → (if b then 0 else 1) ≤ 1
one_le true = omega arith
one_le false = omega arith

total_le :
    (workers : ℕ → Worker) (n : ℕ)
    → ((w : ℕ) → length (workers w).queue ≤ capacity)
    → total n workers ≤ 34 * n
unfolding total
total_le workers zero h = omega arith
total_le workers (suc n) h = omega (
  arith,
  total_le workers n h,
  h n,
  length-held_le (workers n).handling,
  one_le (workers n).is_stopped,
)
  where
    length-held_le : (o : Option Record) → length (held o) ≤ 1
    length-held_le none = omega arith
    length-held_le (some r) = omega arith

-- Once `Run` comes to a `return`, the context of its workers is cancelled, and `Run` returns, if every
-- call of `handleRecord` returns under such a context: no more steps are left than 34 for each worker
-- and one, and behind any number of them all workers have ended and `Run` has returned, or there is a
-- step.
pub Steps-length_le :
    (workers : ℤ) {s t : Pool} {n : ℕ} (e : Option Error)
    → Reachable (worker_count workers) s
    → s.result ≡ some e
    → Steps (worker_count workers) s n t
    → (s.is_cancelled ≡ true)
      × (n ≤ 34 * worker_count workers + 1)
      × (HasReturned (worker_count workers) t ⊎ CanStep (worker_count workers) t)
unfolding remaining
Steps-length_le workers {s} {t} e reached ended steps =
    let count = worker_count workers in
    let real = worker_count_pos workers in
    let h = Reachable-IsBounded count real reached in
    let late = (h.shut e ended).0 in
    let (fewer, ending) =
      Steps-remaining_le count e steps (record { ended = ended; cancelled = late }) in
    (
      late,
      omega (arith, fewer, total_le s.workers count h.queues, one_le s.is_joined),
      ending-CanStep count t e
          (Reachable-IsBounded count real (Steps-Reachable count steps reached)) ending.ended,
    )
