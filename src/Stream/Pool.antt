-- ===== src/Stream/Pool.antt =====
-- `Consumer.Run` of internal/stream/kafka.go: the loop that hands fetched records to workers over
-- channels, as steps of the loop and of the workers in any order.
--
-- Of a call of `handleRecord` its outcome is kept: the offset of the record is committed, or the
-- call returns without an error because the context is cancelled, or with an error. The deferred
-- cancel and the closing of the channels are one step with the `return`; the wait for the workers
-- behind it is a step of its own. When PollFetches returns is up to the brokers, and no step of these.
pub mod Order
pub mod Invariant
pub mod Bounds
pub mod Shutdown
use learn_go_project.Prelude.{
  ℕ, ◌%◌, ◌^◌, ◌-◌, ◌<◌, Bool, true, false, ◌≡◌, Option, none, some, List, [], ◌∷◌, ◌++◌, ℤ, pos,
  negsuc, length, ltb, eqb, if◌then◌else◌,
}
use learn_go_project.Errors.{Error}
use learn_go_project.Stream.Consumer.{Record}

-- the workers of a consumer, one at least
unfoldable pub worker_count : ℤ → ℕ
worker_count (negsuc n) = 1
worker_count (pos n) = if ltb n 1 then 1 else n

-- the capacity of a worker's channel
abbrev pub capacity : ℕ
capacity = 32

-- A worker: the records that it committed, those that it gave up, the one that it handles, and those
-- in its channel, the next one first.
pub record Worker : Type 0 where
  pub committed : List Record
  pub skipped : List Record
  pub handling : Option Record
  pub queue : List Record
  pub is_stopped : Bool

-- `Run` in the middle of its work: the records that were fetched so far, those of the last fetch
-- that are to be handed on, the errors in `errCh`, whether it waits in PollFetches, whether the
-- context is cancelled and the channels are closed, the value of its `return` statement if it got
-- there, and whether the deferred wait for the workers is over.
pub record Pool : Type 0 where
  pub workers : ℕ → Worker
  pub fetched : List Record
  pub pending : List Record
  pub errors : List Error
  pub is_polling : Bool
  pub is_cancelled : Bool
  pub is_closed : Bool
  pub result : Option (Option Error)
  pub is_joined : Bool

abbrev pub idle : Worker
idle = record { committed = []; skipped = []; handling = none; queue = []; is_stopped = false }

abbrev pub started : Pool
started = record {
  workers = λ w. idle;
  fetched = [];
  pending = [];
  errors = [];
  is_polling = false;
  is_cancelled = false;
  is_closed = false;
  result = none;
  is_joined = false;
}

-- int32(c.workers), without its sign, which a remainder of a partition does not depend on
unfoldable pub divisor : ℕ → ℕ
divisor count = let low = count % 2 ^ 32 in if ltb low (2 ^ 31) then low else 2 ^ 32 - low

-- The worker of a partition: the remainder.
unfoldable pub worker_at : ℕ → ℕ → ℕ
unfolding divisor
worker_at count partition = partition % divisor count

abbrev pub worker_of : ℕ → Record → ℕ
worker_of count r = worker_at count r.partition

abbrev pub put : ℕ → Worker → (ℕ → Worker) → ℕ → Worker
put w x workers k = if eqb k w then x else workers k

abbrev pub with_worker : ℕ → Worker → Pool → Pool
with_worker w x s = record s { workers = put w x s.workers }

-- jobs[worker] <- record
abbrev pub enqueue : Record → Worker → Worker
enqueue r x = record x { queue = x.queue ++ r ∷ [] }

-- errCh <- err, unless it is full
unfoldable pub report : ℕ → Error → List Error → List Error
report count e errors = if ltb (length errors) count then errors ++ e ∷ [] else errors

module _ (count : ℕ) where
  -- One step of the loop or of a worker.
  pub data Step (s : Pool) : Pool → Type 0 where
    -- the loop finds neither a cancelled context nor an error, and calls PollFetches
    look :
        s.result ≡ none
        → s.is_polling ≡ false
        → s.is_cancelled ≡ false
        → s.errors ≡ []
        → s.pending ≡ []
        → Step s (record s { is_polling = true })
    -- a record goes to its worker, whose channel has room; the remainder by 0 panics
    hand :
        (r : Record) (rest : List Record)
        → s.result ≡ none
        → s.is_polling ≡ false
        → 0 < divisor count
        → s.pending ≡ r ∷ rest
        → length (s.workers (worker_of count r)).queue < capacity
        → Step s
            (record (with_worker
              (worker_of count r)
              (enqueue r (s.workers (worker_of count r)))
              s) { pending = rest })
    -- a select, or the test behind PollFetches, finds the context cancelled
    return_cancelled :
        s.result ≡ none
        → s.is_cancelled ≡ true
        → Step s (record s { is_closed = true; result = some none })
    -- a select finds an error
    return_error :
        (e : Error) (rest : List Error)
        → s.result ≡ none
        → s.is_polling ≡ false
        → s.errors ≡ e ∷ rest
        → Step s (record s {
          errors = rest;
          is_cancelled = true;
          is_closed = true;
          result = some (some e);
        })
    -- wg.Wait, when the workers have ended
    join :
        (e : Option Error)
        → s.result ≡ some e
        → s.is_joined ≡ false
        → ((w : ℕ) → w < count → (s.workers w).is_stopped ≡ true)
        → Step s (record s { is_joined = true })
    -- a worker takes a record up
    take :
        (w : ℕ) (r : Record) (rest : List Record)
        → w < count
        → s.is_cancelled ≡ false
        → (s.workers w).is_stopped ≡ false
        → (s.workers w).handling ≡ none
        → (s.workers w).queue ≡ r ∷ rest
        → Step s (with_worker w (record (s.workers w) { handling = some r; queue = rest }) s)
    -- or gives it up, as the context is cancelled
    skip :
        (w : ℕ) (r : Record) (rest : List Record)
        → w < count
        → s.is_cancelled ≡ true
        → (s.workers w).is_stopped ≡ false
        → (s.workers w).handling ≡ none
        → (s.workers w).queue ≡ r ∷ rest
        → Step s (
            with_worker w
              (record (s.workers w) { skipped = (s.workers w).skipped ++ r ∷ []; queue = rest })
              s)
    -- `handleRecord` returns: the offset is committed
    commit :
        (w : ℕ) (r : Record)
        → w < count
        → (s.workers w).handling ≡ some r
        → Step s (
            with_worker w
              (record (s.workers w) {
                committed = (s.workers w).committed ++ r ∷ [];
                handling = none;
              })
              s)
    -- or the context is cancelled meanwhile
    leave :
        (w : ℕ) (r : Record)
        → w < count
        → s.is_cancelled ≡ true
        → (s.workers w).handling ≡ some r
        → Step s (
            with_worker w
              (record (s.workers w) { skipped = (s.workers w).skipped ++ r ∷ []; handling = none })
              s)
    -- or it returns an error, which the worker reports before it stops
    fail :
        (w : ℕ) (r : Record) (e : Error)
        → w < count
        → (s.workers w).handling ≡ some r
        → Step s
            (record (with_worker w
              (record (s.workers w) {
                skipped = (s.workers w).skipped ++ r ∷ [];
                handling = none;
                is_stopped = true;
              })
              s) { errors = report count e s.errors })
    -- a worker finds its channel empty and closed
    exit :
        (w : ℕ)
        → w < count
        → s.is_closed ≡ true
        → (s.workers w).is_stopped ≡ false
        → (s.workers w).handling ≡ none
        → (s.workers w).queue ≡ []
        → Step s (with_worker w (record (s.workers w) { is_stopped = true }) s)

  -- The states that `Run` can come to: PollFetches may return records, or none, and the context may be
  -- cancelled from outside at any time.
  pub data Reachable : Pool → Type 0 where
    at_start : Reachable started
    after : {s t : Pool} → Reachable s → Step s t → Reachable t
    fetch :
        {s : Pool} (rs : List Record)
        → Reachable s
        → s.result ≡ none
        → s.is_polling ≡ true
        → s.is_cancelled ≡ false
        → s.pending ≡ []
        → Reachable (record s { fetched = s.fetched ++ rs; pending = rs; is_polling = false })
    cut_off : {s : Pool} → Reachable s → Reachable (record s { is_cancelled = true })
