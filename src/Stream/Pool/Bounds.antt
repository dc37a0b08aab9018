-- ===== src/Stream/Pool/Bounds.antt =====
-- That the channels of the workers stay within their bounds, and that `Run` is never stuck.
use learn_go_project.Prelude.{
  ℕ, ℤ, ◌≤◌, ◌<◌, ◌^◌, ◌≡◌, ap, true, false, Bool-cases, ◌⊎◌, inl, inr, none, Option-cases, List,
  [], ◌∷◌, length, ltb, arith,
}
use learn_go_project.Stream.Consumer.{Record}
use learn_go_project.Stream.Pool.{
  Pool, worker_count, capacity, worker_of, Step, look, hand, return_cancelled, return_error, take,
  commit, Reachable,
}
use learn_go_project.Stream.Pool.Invariant.{
  Reachable-IsBounded, divisor_small, worker_of_lt, worker_count_pos, list-cases, nonempty,
}

-- `Run` waits for records in PollFetches, under a live context.
abbrev pub IsWaiting : Pool → Type 0
IsWaiting s = (s.is_polling ≡ true) × (s.is_cancelled ≡ false)

module _ (count : ℕ) where
  -- The loop or a worker has a step to take.
  abbrev pub CanStep : Pool → Type 0
  CanStep s = (t : Pool) × Step count s t

  worker-CanStep :
      (s : Pool) (w : ℕ) (r : Record) (rest : List Record)
      → w < count
      → s.is_cancelled ≡ false
      → (s.workers w).is_stopped ≡ false
      → (s.workers w).queue ≡ r ∷ rest
      → CanStep s
  worker-CanStep s w r rest known running alive full = elim (Option-cases (s.workers w).handling) [
    | inl free ↦ (_, take w r rest known running alive free full)
    | inr (x, busy) ↦ (_, commit w x known busy)
  ]

  hand-CanStep :
      (s : Pool) (r : Record) (rest : List Record)
      → 0 < count
      → count < 2 ^ 31
      → s.result ≡ none
      → s.is_polling ≡ false
      → s.is_cancelled ≡ false
      → s.pending ≡ r ∷ rest
      → (s.workers (worker_of count r)).is_stopped ≡ false
      → CanStep s
  hand-CanStep s r rest real small unreturned top running first alive =
      let w = worker_of count r in
      elim (Bool-cases (ltb (length (s.workers w).queue) capacity)) [
        | inl room ↦ (
          _,
          hand r rest unreturned top (omega (arith, divisor_small count small, real)) first
              (ground (arith, room)),
        )
        | inr full ↦
            let some_left = nonempty (s.workers w).queue (ground (arith, full)) in
            worker-CanStep s w some_left.0 some_left.1 (worker_of_lt count r real small) running
              alive some_left.2
      ]

  IsBounded-CanStep :
      {s : Pool}
      → 0 < count
      → count < 2 ^ 31
      → Reachable count s
      → s.result ≡ none
      → IsWaiting s ⊎ CanStep s
  IsBounded-CanStep {s} real small reached unreturned = elim (Bool-cases s.is_cancelled) [
    | inl late ↦ inr (_, return_cancelled unreturned late)
    | inr running ↦ elim (Bool-cases s.is_polling) [
      | inl polling ↦ inl (polling, running)
      | inr top ↦ elim (list-cases s.errors) [
        | inr (e, rest, first) ↦ inr (_, return_error e rest unreturned top first)
        | inl no_errors ↦ elim (list-cases s.pending) [
          | inl none_left ↦ inr (_, look unreturned top running no_errors none_left)
          | inr (r, rest, first) ↦ inr (
              hand-CanStep s r rest real small unreturned top running first (
                alive (worker_of count r) no_errors
                  (Bool-cases (s.workers (worker_of count r)).is_stopped)))
        ]
      ]
    ]
  ]
    where
      alive :
          (w : ℕ)
          → s.errors ≡ []
          → ((s.workers w).is_stopped ≡ true) ⊎ ((s.workers w).is_stopped ≡ false)
          → (s.workers w).is_stopped ≡ false
      alive w no_errors (inr running) = running
      alive w no_errors (inl stopped) = absurd (
          omega (
            arith,
            (Reachable-IsBounded count real reached).reported w unreturned stopped,
            ap length no_errors,
          ))

-- With fewer than 2^31 workers every partition has a worker, no worker's channel ever holds more than
-- 32 records, and `errCh` no more errors than there are workers.
pub Reachable-length_le :
    (workers : ℤ) {s : Pool}
    → worker_count workers < 2 ^ 31
    → Reachable (worker_count workers) s
    → ((r : Record) → worker_of (worker_count workers) r < worker_count workers)
      × ((w : ℕ) → length (s.workers w).queue ≤ 32)
      × (length s.errors ≤ worker_count workers)
Reachable-length_le workers small reached =
    let real = worker_count_pos workers in
    let h = Reachable-IsBounded (worker_count workers) real reached in
    (λ r. worker_of_lt (worker_count workers) r real small, h.queues, h.errors_le)

-- With fewer than 2^31 workers, until it comes to a `return`, `Run` waits in PollFetches under a live
-- context, or is not stuck: it can call PollFetches, hand a record on or return, or a worker that
-- holds up its next record can go on, if the worker's call of `handleRecord` returns.
pub Reachable-CanStep :
    (workers : ℤ) {s : Pool}
    → worker_count workers < 2 ^ 31
    → Reachable (worker_count workers) s
    → s.result ≡ none
    → IsWaiting s ⊎ CanStep (worker_count workers) s
Reachable-CanStep workers small reached unreturned =
    IsBounded-CanStep (worker_count workers) (worker_count_pos workers) small reached unreturned
