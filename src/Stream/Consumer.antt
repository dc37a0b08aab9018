-- ===== src/Stream/Consumer.antt =====
-- `Consumer.handleRecord` of internal/stream/kafka.go: a record is handled until the handler
-- succeeds, the error is permanent, or the context is cancelled.
--
-- What the loop cannot foresee is a list with an entry for each round: what the handler does in that
-- round, when the context is found cancelled, and how the offset's commit goes. When the list is
-- used up, the loop is still at work. Times are in milliseconds.
pub mod Offsets
pub mod Backoff
use learn_go_project.Prelude.{
  ℕ, ◌*◌, String, Bool, ◌||◌, Option, none, some, List, [], ◌∷◌, ◌++◌, ℤ, leb, if◌then◌else◌,
}
use learn_go_project.Errors.{Error, permanent_error, wrap, Result, ok, err, is_permanent}
use learn_go_project.Exec.{Commit, committed, aborted, unanswered}
use learn_go_project.Platform.{Bytes}
use learn_go_project.Stream.Producer.{Message, Broker, Network, dead_letter_topic, publish}

-- a fetched record
pub record Record : Type 0 where
  pub topic : String
  pub partition : ℕ
  pub offset : ℕ
  pub key : String
  pub value : Bytes

-- `Permanent`, of the error that the caller has, if any
unfoldable pub permanent : Option Error → Option Error
permanent none = none
permanent (some e) = some (permanent_error e)

abbrev pub first_backoff : ℕ
first_backoff = 100

abbrev pub max_backoff : ℕ
max_backoff = 5000

-- min(backoff*2, 5*time.Second)
unfoldable pub next_backoff : ℕ → ℕ
next_backoff b = if leb (b * 2) max_backoff then b * 2 else max_backoff

-- `W` is what the handler changes.
abbrev pub Handler : Type 0 → Type 0
Handler W = Bytes → W → Result (Unit {0}) × W

pub record Round (W : Type 0) : Type 0 where
  pub handler : Handler W
  pub cancelled_before : Bool
  pub cancelled_after : Bool
  pub cancelled_waiting : Bool
  pub commit : Commit

pub record State (W : Type 0) : Type 0 where
  pub world : W
  pub broker : Broker
  -- the records whose offsets the broker has committed
  pub offsets : List Record
  -- the waits so far, the last one first
  pub waits : List ℕ

-- How a call of the loop ends: it returns, with an error or none, or the rounds are used up.
pub data Ending : Type 0 where
  returned : Option Error → Ending
  at_work : ℕ → Ending

module _ {W : Type 0} where
  -- CommitRecords, whose error is passed over once the context is cancelled
  unfoldable pub commit_record : String → Commit → Bool → Record → State W → Ending × State W
  commit_record prefix committed cancelled r s =
      (returned none, record s { offsets = s.offsets ++ r ∷ [] })
  commit_record prefix (aborted e) cancelled r s =
      (returned (if cancelled then none else some (wrap prefix e)), s)
  commit_record prefix (unanswered e) cancelled r s = (
    returned (if cancelled then none else some (wrap prefix e)),
    record s { offsets = s.offsets ++ r ∷ [] },
  )

abbrev pub dead_letter_error : Option Error × Broker → Option Error × Broker
dead_letter_error (none, b) = (none, b)
dead_letter_error (some e, b) = (some (wrap "publish dead letter" e), b)

-- `publishDeadLetter`: `letter` is the JSON of the record and its error, or the error of encoding it.
unfoldable pub publish_dead_letter :
    Network → Result Bytes → Record → Broker → Option Error × Broker
publish_dead_letter net (err e) r b = (some (wrap "encode dead letter" e), b)
publish_dead_letter net (ok payload) r b =
    dead_letter_error (publish net dead_letter_topic r.key payload b)

module _ {W : Type 0} (net : Network) (letter : Record → Error → Result Bytes) (r : Record) where
  -- behind the dead letter
  unfoldable pub parked : Round W → Option Error × Broker → State W → Ending × State W
  unfolding commit_record
  parked round (some e, b) s = (returned (some e), record s { broker = b })
  parked round (none, b) s =
      commit_record "commit dead-lettered record" round.commit round.cancelled_after r
        (record s { broker = b })

  -- a transient error: the wait, and the next round
  unfoldable pub retry : Round W → (ℕ → State W → Ending × State W) → ℕ → State W → Ending × State W
  retry round next backoff s =
      if round.cancelled_after || round.cancelled_waiting
      then (returned none, s)
      else next (next_backoff backoff) (record s { waits = backoff ∷ s.waits })

  -- what the handler's result leads to
  unfoldable pub settle :
      Round W
      → (ℕ → State W → Ending × State W)
      → ℕ
      → Result (Unit {0}) × W
      → State W
      → Ending × State W
  unfolding parked retry publish_dead_letter
  settle round next backoff (ok _, w) s =
      commit_record "commit" round.commit round.cancelled_after r (record s { world = w })
  settle round next backoff (err e, w) s =
      if is_permanent e
      then parked round (publish_dead_letter net (letter r e) r s.broker) (record s { world = w })
      else retry round next backoff (record s { world = w })

  unfoldable pub one_round :
      Round W → (ℕ → State W → Ending × State W) → ℕ → State W → Ending × State W
  unfolding settle
  one_round round next backoff s =
      if round.cancelled_before
      then (returned none, s)
      else settle round next backoff (round.handler r.value s.world) s

  -- the loop
  unfoldable pub handle_from : List (Round W) → ℕ → State W → Ending × State W
  unfolding one_round
  handle_from [] backoff s = (at_work backoff, s)
  handle_from (round ∷ rounds) backoff s = one_round round (handle_from rounds) backoff s

  -- `handleRecord`
  unfoldable pub handle_record : List (Round W) → State W → Ending × State W
  unfolding handle_from
  handle_record rounds s = handle_from rounds first_backoff s
