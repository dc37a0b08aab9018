-- ===== src/Simulator/Command.antt =====
-- cmd/simulator/main.go: the loop that makes up transactions and publishes them, and the goroutine
-- that publishes their labels. Durations are in nanoseconds.
--
-- What the loop cannot foresee is a list with an entry for each round: how the wait for the timer
-- ends, how the send goes, and how the label is queued. When the list is used up, the loop is still
-- at work. The labels that the loop queued are those that the other function reads.
pub mod Times
pub mod Loop
pub mod Messages
pub mod Sent
pub mod Completes
use learn_go_project.Prelude.{
  ℕ, ◌+◌, ◌*◌, ◌/◌, String, Bool, true, false, not, ◌&&◌, ◌||◌, Option, none, some, List, [], ◌∷◌,
  ◌++◌, ℤ, pos, negsuc, pos_part, ◌+ℤ◌, ltb_ℤ, leb_ℤ, ltb, leb, eqb, int64, if◌then◌else◌,
}
use learn_go_project.Errors.{Error, text, wrap, Result, ok, err, refuse_if}
use learn_go_project.Float.{Float64}
use learn_go_project.Domain.{TransactionCreated, FraudLabel, Time}
use learn_go_project.Platform.{Bytes}
use learn_go_project.Stream.Producer.{Broker, Network, transactions_topic, labels_topic, publish}
use learn_go_project.Simulator.{Rand, Printer, Generator, generate}

-- defaultEventStep, 10 ms
abbrev pub default_event_step : ℤ
default_event_step = pos 10_000_000

-- `eventStep`
unfoldable pub event_step : ℤ → ℤ
event_step interval = if leb_ℤ interval (pos 0) then default_event_step else interval

-- The flags of the loop.
pub record Options (F : Type 0) : Type 0 where
  pub count : ℤ
  pub rate : F
  pub label_delay : ℤ

module _ {F : Type 0} ⦃f : Float64 F⦄ where
  -- the first check of `run`
  unfoldable pub check_options : Options F → Result (Unit {0})
  check_options o =
      refuse_if
        (ltb_ℤ o.count (pos 0) || f.lt o.rate (f.of_int (pos 0)) || ltb_ℤ o.label_delay (pos 0))
        (text "count, rate, and label-delay cannot be negative")

  -- the pause between two rounds, where `truncate` is time.Duration of a float64
  unfoldable pub interval_of : (F → ℤ) → Options F → ℤ
  interval_of truncate o =
      if f.lt (f.of_int (pos 0)) o.rate
      then truncate (f.div (f.of_int (pos 1_000_000_000)) o.rate)
      else pos 0

-- How a select ends early: the label goroutine returned, or the context is cancelled.
pub data Halt : Type 0 where
  labels_ended : Option Error → Halt
  interrupted : Halt

pub record Round : Type 0 where
  pub waiting : Option Halt
  pub network : Network
  pub queueing : Option Halt

-- How the loop ends: all rounds are done, by `stop(cause)`, by `failed(err)`, in a panic of the
-- generator, or not yet.
pub data Ending : Type 0 where
  completed : Ending
  stopped : Option Error → Ending
  failed : Option Error → Ending
  panicked : Ending
  at_work : Ending

pub record State (F G : Type 0) : Type 0 where
  pub generator : Generator F G
  pub broker : Broker
  pub emitted : ℕ
  -- the transactions that the broker confirmed, and the labels that were queued
  pub sent : List TransactionCreated
  pub labels : List FraudLabel

abbrev pub halted : Halt → Ending
halted (labels_ended e) = failed e
halted interrupted = stopped none

abbrev pub Next : Type 0 → Type 0 → Type 0
Next F G = State F G → Ending × State F G

module _ {F G : Type 0} where
  -- the select on the queue of labels
  unfoldable pub queue_label : Option Halt → FraudLabel → Next F G → Next F G
  queue_label (some h) label next s = (halted h, s)
  queue_label none label next s =
      next (record s { emitted = s.emitted + 1; labels = s.labels ++ label ∷ [] })

  -- behind the send
  unfoldable pub sent_to :
      Round → TransactionCreated → FraudLabel → Next F G → Option Error × Broker → Next F G
  unfolding queue_label
  sent_to round tx label next (some e, broker) s = (stopped (some e), record s { broker = broker })
  sent_to round tx label next (none, broker) s =
      queue_label round.queueing label next (record s { broker = broker; sent = s.sent ++ tx ∷ [] })

  -- the send of an encoded transaction
  unfoldable pub send_encoded :
      Round → TransactionCreated → FraudLabel → Next F G → Result Bytes → Next F G
  unfolding sent_to publish
  send_encoded round tx label next (err e) s = (stopped (some (wrap "encode transaction" e)), s)
  send_encoded round tx label next (ok payload) s =
      sent_to round tx label next
        (publish round.network transactions_topic tx.account_id payload s.broker) s

-- start.Add(time.Duration(emitted) * step)
unfoldable pub time_of : Time → ℤ → ℕ → Time
unfolding event_step int64
time_of start interval emitted = start +ℤ int64 (emitted * pos_part (event_step interval))

module _ {F G : Type 0} ⦃f : Float64 F⦄ (rand : Rand F G) (print : Printer)
    (encode : TransactionCreated → Result Bytes) (start : Time) (interval delay : ℤ) where
  unfoldable pub send_made :
      Round → Next F G → Option (TransactionCreated × FraudLabel) × Generator F G → Next F G
  unfolding send_encoded
  send_made round next (none, g) s = (panicked, record s { generator = g })
  send_made round next (some (tx, label), g) s =
      send_encoded round tx label next (encode tx) (record s { generator = g })

  -- behind the wait
  unfoldable pub emit : Round → Next F G → Next F G
  unfolding send_made time_of generate
  emit round next s =
      send_made round next
        (generate rand print (time_of start interval s.emitted) delay s.generator) s

  -- the wait, from the second round on
  unfoldable pub one_round : Round → Next F G → Next F G
  unfolding emit
  one_round round next s =
      if ltb 0 s.emitted && ltb_ℤ (pos 0) interval
      then elim round.waiting [ some h ↦ (halted h, s) | none ↦ emit round next s ]
      else emit round next s

  -- the loop, over `count` rounds unless it is 0
  unfoldable pub emit_all : ℕ → List Round → Next F G
  unfolding one_round
  emit_all count [] s = (at_work, s)
  emit_all count (round ∷ rounds) s =
      if eqb count 0 || ltb s.emitted count
      then one_round round (emit_all count rounds) s
      else (completed, s)

-- `stop(cause)`, with the result of the label goroutine and whether the context is cancelled
unfoldable pub stop_result : Option Error → Option Error → Bool → Option Error
stop_result (some cause) labels is_cancelled = some cause
stop_result none labels is_cancelled = if is_cancelled then none else labels

-- `failed(err)`
unfoldable pub failed_result : Option Error → Bool → Option Error
failed_result e is_cancelled = if is_cancelled then none else e

-- What `run` returns, once it does: `none` while the loop is at work, and for a panic.
unfoldable pub run_result : Ending → Option Error → Bool → Option (Option Error)
unfolding stop_result failed_result
run_result completed labels is_cancelled = some (stop_result none labels is_cancelled)
run_result (stopped cause) labels is_cancelled = some (stop_result cause labels is_cancelled)
run_result (failed e) labels is_cancelled = some (failed_result e is_cancelled)
run_result panicked labels is_cancelled = none
run_result at_work labels is_cancelled = none

-- A round of `publishLabels`: ctx.Err() if the context is cancelled in the wait, and the send.
pub record LabelRound : Type 0 where
  pub cancelled : Option Error
  pub network : Network

module _ (encode : FraudLabel → Result Bytes) where
  unfoldable pub label_sent :
      (Broker → Option Error × Broker) → Option Error × Broker → Option Error × Broker
  label_sent next (some e, b) = (some e, b)
  label_sent next (none, b) = next b

  unfoldable pub send_label :
      Network
      → FraudLabel
      → (Broker → Option Error × Broker)
      → Result Bytes
      → Broker
      → Option Error × Broker
  unfolding publish label_sent
  send_label net label next (err e) b = (some (wrap "encode label" e), b)
  send_label net label next (ok payload) b =
      label_sent next (publish net labels_topic label.transaction_id payload b)

  -- `publishLabels`, of the labels that are queued until the queue is closed
  unfoldable pub publish_labels : List (LabelRound × FraudLabel) → Broker → Option Error × Broker
  unfolding send_label
  publish_labels [] b = (none, b)
  publish_labels ((round, label) ∷ rest) b = elim round.cancelled [
    | some e ↦ (some e, b)
    | none ↦ send_label round.network label (publish_labels rest) (encode label) b
  ]
