-- ===== src/Simulator/Joint.antt =====
-- cmd/simulator/main.go: the two goroutines of `run`, the one that makes up transactions and the one
-- that publishes their labels, with the channels and the context between them.
--
-- What the loop sends is in Simulator/Command; here a round is a label that it offers. The cancel and
-- the close of `stop` are one step, and so are the deferred calls at the return.
pub mod Invariant
pub mod Joined
use learn_go_project.Prelude.{
  ℕ, ◌<◌, ◌≡◌, Bool, true, false, ◌||◌, Option, none, some, List, [], ◌∷◌, ◌++◌, length,
}
use learn_go_project.Errors.{Error}
use learn_go_project.Domain.{FraudLabel}
use learn_go_project.Simulator.Command.{stop_result, failed_result}

-- the capacity of the queue of labels
abbrev pub queue_capacity : ℕ
queue_capacity = 256

-- Where `run` is: in a round, at the select on the queue, in `stop(cause)` before the close and at
-- the wait behind it, and at the return before and behind the deferred calls.
pub data Main : Type 0 where
  emitting : Main
  offering : FraudLabel → Main
  stopping : Option Error → Main
  joining : Option Error → Main
  returning : Option Error → Main
  finished : Option Error → Main

-- Where `publishLabels` is: at the receive, with a label, or returned, with the label that it had.
pub data Publisher : Type 0 where
  receiving : Publisher
  holding : FraudLabel → Publisher
  exited : Option FraudLabel → Publisher

pub record Joint : Type 0 where
  pub main : Main
  pub publisher : Publisher
  -- the channel of labels, and whether it is closed
  pub queue : List FraudLabel
  pub is_closed : Bool
  pub is_cancelled : Bool
  -- `labelErr`
  pub result : Option (Option Error)
  pub is_producer_closed : Bool
  -- the labels that were queued so far, and those that were published
  pub queued : List FraudLabel
  pub published : List FraudLabel

abbrev pub both_started : Joint
both_started = record {
  main = emitting;
  publisher = receiving;
  queue = [];
  is_closed = false;
  is_cancelled = false;
  result = none;
  is_producer_closed = false;
  queued = [];
  published = [];
}

abbrev pub has_cause : Option Error → Bool
has_cause none = false
has_cause (some e) = true

-- One step of one of the two.
pub data Step (s : Joint) : Joint → Type 0 where
  -- a transaction is published, and its label offered
  offer : (l : FraudLabel) → s.main ≡ emitting → Step s (record s { main = offering l })
  -- the encoding or the send fails
  send_failed : (e : Error) → s.main ≡ emitting → Step s (record s { main = stopping (some e) })
  -- all rounds are done, or the wait between two is interrupted
  complete : s.main ≡ emitting → Step s (record s { main = stopping none })
  -- the publisher ended while the loop waits, or offers a label
  wait_failed :
      (e : Option Error)
      → s.main ≡ emitting
      → s.result ≡ some e
      → Step s (record s { main = returning (failed_result e s.is_cancelled); result = none })
  offer_failed :
      (l : FraudLabel) (e : Option Error)
      → s.main ≡ offering l
      → s.result ≡ some e
      → Step s (record s { main = returning (failed_result e s.is_cancelled); result = none })
  offer_interrupted :
      (l : FraudLabel)
      → s.main ≡ offering l
      → s.is_cancelled ≡ true
      → Step s (record s { main = stopping none })
  -- the queue has room
  queue_label :
      (l : FraudLabel)
      → s.main ≡ offering l
      → length s.queue < queue_capacity
      → Step s
          (record s { main = emitting; queue = s.queue ++ l ∷ []; queued = s.queued ++ l ∷ [] })
  -- `stop`: the cancel for a cause, and the close; then the wait for the publisher
  close :
      (cause : Option Error)
      → s.main ≡ stopping cause
      → Step s (record s {
        main = joining cause;
        is_closed = true;
        is_cancelled = s.is_cancelled || has_cause cause;
      })
  join :
      (cause r : Option Error)
      → s.main ≡ joining cause
      → s.result ≡ some r
      → Step s (record s { main = returning (stop_result cause r s.is_cancelled); result = none })
  -- the deferred cancel and Close of the producer
  return :
      (r : Option Error)
      → s.main ≡ returning r
      → Step s (record s { main = finished r; is_cancelled = true; is_producer_closed = true })
  -- the publisher takes a label, or finds the queue empty and closed
  receive :
      (l : FraudLabel) (rest : List FraudLabel)
      → s.publisher ≡ receiving
      → s.queue ≡ l ∷ rest
      → Step s (record s { publisher = holding l; queue = rest })
  exhaust :
      s.publisher ≡ receiving
      → s.queue ≡ []
      → s.is_closed ≡ true
      → Step s (record s { publisher = exited none; result = some none })
  -- it publishes its label, fails, or gives up at the wait as the context is cancelled
  publish :
      (l : FraudLabel)
      → s.publisher ≡ holding l
      → Step s (record s { publisher = receiving; published = s.published ++ l ∷ [] })
  publish_failed :
      (l : FraudLabel) (e : Error)
      → s.publisher ≡ holding l
      → Step s (record s { publisher = exited (some l); result = some (some e) })
  give_up :
      (l : FraudLabel) (e : Error)
      → s.publisher ≡ holding l
      → s.is_cancelled ≡ true
      → Step s (record s { publisher = exited (some l); result = some (some e) })

-- The states that the two come to. The context may be cancelled at any time, by a signal.
pub data Reachable : Joint → Type 0 where
  at_start : Reachable both_started
  after : {s t : Joint} → Reachable s → Step s t → Reachable t
  interrupted : {s : Joint} → Reachable s → Reachable (record s { is_cancelled = true })
