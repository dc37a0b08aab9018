-- ===== src/Stream/Pool/Invariant.antt =====
-- What bounds the channels of the workers and of the errors, and when `Run` and its workers end.
use learn_go_project.Prelude.{
  ℕ, ℤ, pos, negsuc, ◌≤◌, ◌<◌, ◌^◌, ◌%◌, ◌≡◌, refl, sym, ◌∙◌, ap, true, false, Bool-cases,
  false≢true, ◌⊎◌, inl, inr, Option, none, some, List, [], ◌∷◌, length, length-append, ltb, arith,
}
use learn_go_project.Errors.{Error}
use learn_go_project.Stream.Consumer.{Record}
use learn_go_project.Stream.Pool.{
  Worker, Pool, worker_count, capacity, divisor, worker_at, worker_of, with_worker, enqueue, report,
  Step, look, hand, return_cancelled, return_error, join, take, skip, commit, leave, fail, exit,
  Reachable, at_start, after, fetch, cut_off,
}
use learn_go_project.Stream.Pool.Order.{put-elim}

-- Below 2^31 workers, the conversion to int32 changes nothing.
pub divisor_small : (count : ℕ) → count < 2 ^ 31 → divisor count ≡ count
unfolding divisor
divisor_small count small =
    let low : count % 2 ^ 32 ≡ count = omega (arith, small) in rw low (ground (arith, small))

-- A Go program panics on `x % 0` and on an index out of range: with one worker at least there is a
-- worker for every partition.
pub worker_of_lt : (count : ℕ) (r : Record) → 0 < count → count < 2 ^ 31 → worker_of count r < count
unfolding worker_at
worker_of_lt count r real small = rw (divisor_small count small) (omega (arith, real))

pub worker_count_pos : (workers : ℤ) → 0 < worker_count workers
unfolding worker_count
worker_count_pos (pos n) = ground arith
worker_count_pos (negsuc n) = omega arith

pub list-cases :
    {A : Type 0} (xs : List A) → (xs ≡ []) ⊎ ((x : A) × (rest : List A) × (xs ≡ x ∷ rest))
list-cases [] = inl refl
list-cases (x ∷ rest) = inr (x, rest, refl)

pub nonempty :
    {A : Type 0} (xs : List A) → 0 < length xs → (x : A) × (rest : List A) × (xs ≡ x ∷ rest)
nonempty [] h = absurd (omega arith)
nonempty (x ∷ rest) h = (x, rest, refl)

module _ (count : ℕ) where
  -- The channels hold no more than they can; after an error that no one has received yet there is
  -- one in `errCh`; the context is cancelled and the channels are closed when `Run` got to its return,
  -- and not closed before; and it has waited for all workers.
  pub record IsBounded (s : Pool) : Type 0 where
    pub queues : (w : ℕ) → length (s.workers w).queue ≤ capacity
    pub errors_le : length s.errors ≤ count
    pub reported : (w : ℕ) → s.result ≡ none → (s.workers w).is_stopped ≡ true → 0 < length s.errors
    pub unclosed : s.result ≡ none → s.is_closed ≡ false
    pub shut :
        (e : Option Error) → s.result ≡ some e → (s.is_cancelled ≡ true) × (s.is_closed ≡ true)
    pub waited : s.is_joined ≡ true → (w : ℕ) → w < count → (s.workers w).is_stopped ≡ true

  length-report_le :
      (e : Error) (errors : List Error)
      → length errors ≤ count
      → length (report count e errors) ≤ count
  unfolding report
  length-report_le e errors h = elim (Bool-cases (ltb (length errors) count)) [
    | inl t ↦ rw t (rw (length-append errors (e ∷ [])) (ground (arith, t)))
    | inr t ↦ rw t h
  ]

  report_pos : (e : Error) (errors : List Error) → 0 < count → 0 < length (report count e errors)
  unfolding report
  report_pos e errors h = elim (Bool-cases (ltb (length errors) count)) [
    | inl t ↦ rw t (rw (length-append errors (e ∷ [])) (omega arith))
    | inr t ↦ rw t (ground (arith, t))
  ]

  -- A worker that changes keeps the bounds, if its channel and its being stopped do.
  worker-IsBounded :
      {s : Pool} (w : ℕ) (x : Worker)
      → length x.queue ≤ capacity
      → (x.is_stopped ≡ (s.workers w).is_stopped)
      → IsBounded s
      → IsBounded (with_worker w x s)
  worker-IsBounded {s} w x short same h = record {
    queues = put-elim (λ j y. length y.queue ≤ capacity) w x s.workers short h.queues;
    errors_le = h.errors_le;
    reported = λ k unreturned.
        put-elim (λ j y. y.is_stopped ≡ true → 0 < length s.errors) w x s.workers
          (λ stopped. h.reported w unreturned (sym same ∙ stopped)) (λ j. h.reported j unreturned)
          k;
    unclosed = h.unclosed;
    shut = h.shut;
    waited = λ joined.
        put-elim (λ j y. j < count → y.is_stopped ≡ true) w x s.workers
          (λ known. same ∙ h.waited joined w known) (h.waited joined);
  }

  -- A worker that ends keeps them too, if its end is reported or the channels are closed.
  ending-IsBounded :
      {s : Pool} (w : ℕ) (x : Worker) (errors : List Error)
      → length x.queue ≤ capacity
      → x.is_stopped ≡ true
      → length errors ≤ count
      → (s.result ≡ none → 0 < length errors)
      → IsBounded s
      → IsBounded (record (with_worker w x s) { errors = errors })
  ending-IsBounded {s} w x errors short stopped few reported h = record {
    queues = put-elim (λ j y. length y.queue ≤ capacity) w x s.workers short h.queues;
    errors_le = few;
    reported = λ k unreturned _. reported unreturned;
    unclosed = h.unclosed;
    shut = h.shut;
    waited = λ joined.
        put-elim (λ j y. j < count → y.is_stopped ≡ true) w x s.workers (λ known. stopped)
          (h.waited joined);
  }

  Step-IsBounded : {s t : Pool} → 0 < count → Step count s t → IsBounded s → IsBounded t
  Step-IsBounded {s} real (look unreturned top running no_errors none_left) h = record {
    queues = h.queues;
    errors_le = h.errors_le;
    reported = h.reported;
    unclosed = h.unclosed;
    shut = h.shut;
    waited = h.waited;
  }
  Step-IsBounded {s} real (hand r rest unreturned top divides first room) h =
      let w = worker_of count r in
      let kept =
        worker-IsBounded {s = s} w (enqueue r (s.workers w))
          (rw (length-append (s.workers w).queue (r ∷ [])) (omega (arith, room))) refl h in
      record {
        queues = kept.queues;
        errors_le = kept.errors_le;
        reported = kept.reported;
        unclosed = kept.unclosed;
        shut = kept.shut;
        waited = kept.waited;
      }
  Step-IsBounded {s} real (return_cancelled unreturned late) h = record {
    queues = h.queues;
    errors_le = h.errors_le;
    reported = λ w never. absurd (ground (arith, never));
    unclosed = λ never. absurd (ground (arith, never));
    shut = λ e _. (late, refl);
    waited = h.waited;
  }
  Step-IsBounded {s} real (return_error e rest unreturned top first) h = record {
    queues = h.queues;
    errors_le = omega (arith, h.errors_le, ap length first);
    reported = λ w never. absurd (ground (arith, never));
    unclosed = λ never. absurd (ground (arith, never));
    shut = λ e _. (refl, refl);
    waited = h.waited;
  }
  Step-IsBounded {s} real (join e ended unjoined all_stopped) h = record {
    queues = h.queues;
    errors_le = h.errors_le;
    reported = h.reported;
    unclosed = h.unclosed;
    shut = h.shut;
    waited = λ _. all_stopped;
  }
  Step-IsBounded {s} real (take w r rest known running alive free first) h =
      worker-IsBounded w _ (omega (arith, h.queues w, ap length first)) refl h
  Step-IsBounded {s} real (skip w r rest known late alive free first) h =
      worker-IsBounded w _ (omega (arith, h.queues w, ap length first)) refl h
  Step-IsBounded {s} real (commit w r known busy) h = worker-IsBounded w _ (h.queues w) refl h
  Step-IsBounded {s} real (leave w r known late busy) h = worker-IsBounded w _ (h.queues w) refl h
  Step-IsBounded {s} real (fail w r e known busy) h =
      ending-IsBounded w _ (report count e s.errors) (h.queues w) refl
        (length-report_le e s.errors h.errors_le) (λ _. report_pos e s.errors real) h
  Step-IsBounded {s} real (exit w known closed alive free empty) h =
      let kept =
        ending-IsBounded {s = s} w (record (s.workers w) { is_stopped = true }) s.errors
          (h.queues w) refl h.errors_le
          (λ unreturned. absurd (false≢true (sym (h.unclosed unreturned) ∙ closed))) h in
      record {
        queues = kept.queues;
        errors_le = kept.errors_le;
        reported = kept.reported;
        unclosed = kept.unclosed;
        shut = kept.shut;
        waited = kept.waited;
      }

  pub Reachable-IsBounded : {s : Pool} → 0 < count → Reachable count s → IsBounded s
  Reachable-IsBounded real at_start = record {
    queues = λ w. omega arith;
    errors_le = omega arith;
    reported = λ w unreturned never. absurd (false≢true never);
    unclosed = λ _. refl;
    shut = λ e never. absurd (ground (arith, never));
    waited = λ never. absurd (false≢true never);
  }
  Reachable-IsBounded real (after reached step) =
      Step-IsBounded real step (Reachable-IsBounded real reached)
  Reachable-IsBounded real (fetch rs reached unreturned polling running none_left) =
      let h = Reachable-IsBounded real reached in
      record {
        queues = h.queues;
        errors_le = h.errors_le;
        reported = h.reported;
        unclosed = h.unclosed;
        shut = h.shut;
        waited = h.waited;
      }
  Reachable-IsBounded real (cut_off reached) =
      let h = Reachable-IsBounded real reached in
      record {
        queues = h.queues;
        errors_le = h.errors_le;
        reported = h.reported;
        unclosed = h.unclosed;
        shut = λ e ended. (refl, (h.shut e ended).1);
        waited = h.waited;
      }
