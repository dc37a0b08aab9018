-- ===== src/Tests/System.antt =====
-- A run of the whole service.
use learn_go_project.Prelude.{ℕ, ◌≡◌, ◌⊎◌, Bool, false, some, map, [], ◌∷◌, pos}
use learn_go_project.Errors.{text, Error, Result, ok}
use learn_go_project.Exec.{committed, unanswered}
use learn_go_project.Float.{Whole, whole_float}
use learn_go_project.Store.Evaluate.{Faults, no_faults}
use learn_go_project.Store.Outbox.Progress.{steady, no_outbox_faults}
use learn_go_project.Stream.Producer.{Network, unconfirmed}
use learn_go_project.Service.Processor.{World, handle_transaction, handle_label}
use learn_go_project.Platform.{Bytes}
use learn_go_project.Stream.Consumer.{Record, State, handle_record}
use learn_go_project.Service.Commits.{
  Turn, transaction_round, IsAssessed, IsDeadLettered, handle_record-loses_nothing,
}
use learn_go_project.Service.Outbox.{Site, flush, count_failure}
use learn_go_project.Service.System.{
  initial, with_world, transaction_delivered, label_delivered, flushed, Reachable, at_start, after,
}
use learn_go_project.Service.System.Soundness.{IsSound, Reachable-IsSound}
use learn_go_project.Tests.Sample.{processor, platform, platform-IsPlatform, start}

abbrev reset : Error
reset = text "connection reset"

-- The COMMIT of the first delivery is not answered, nor is the first send of its assessment.
abbrev lost_answer : Faults
lost_answer = record no_faults { commit = unanswered reset }

abbrev unlocked : ℕ → Bool
unlocked id = false

abbrev lossy : Network
lossy m b = unconfirmed reset

abbrev delivered_once : Site Whole
delivered_once =
    with_world initial
      (handle_transaction processor lost_answer (pos 9_000) (500 ∷ []) initial.world).1

abbrev flushed_once : Site Whole
flushed_once = count_failure (flush lossy unlocked no_outbox_faults delivered_once)

abbrev labelled_site : Site Whole
labelled_site = with_world flushed_once (handle_label platform committed [] flushed_once.world).1

abbrev pub flushed_twice : Site Whole
flushed_twice = count_failure (flush steady unlocked no_outbox_faults labelled_site)

pub four_steps : Reachable processor flushed_twice
four_steps =
    after {s = labelled_site}
      (after {s = flushed_once}
        (after {s = delivered_once}
          (after {s = initial} at_start (transaction_delivered lost_answer (pos 9_000) (500 ∷ [])))
          (flushed lossy unlocked no_outbox_faults))
        (label_delivered committed []))
      (flushed steady unlocked no_outbox_faults)

Reachable-IsSound_example : IsSound flushed_twice.broker flushed_twice.world.tables
Reachable-IsSound_example = Reachable-IsSound processor flushed_twice four_steps

-- The record of the transactions' topic: a first round whose insert fails, then one that succeeds.
abbrev sample_record : Record
sample_record = record {
  topic = "transactions.v1";
  partition = 0;
  offset = 4;
  key = "account-1";
  value = 500 ∷ [];
}

abbrev letter : Record → Error → Result Bytes
letter r e = ok r.value

abbrev good_turn : Turn
good_turn = record {
  faults = no_faults;
  now = pos 9_000;
  cancelled_before = false;
  cancelled_after = false;
  cancelled_waiting = false;
  commit = committed;
}

abbrev failing_turn : Turn
failing_turn = record good_turn { faults = record no_faults { insert = some reset } }

abbrev first_state : State (World Whole)
first_state = record { world = start; broker = []; offsets = []; waits = [] }

abbrev last_state : State (World Whole)
last_state =
    (handle_record steady letter sample_record
      (map (transaction_round processor) (failing_turn ∷ good_turn ∷ [])) first_state).1

handle_record-loses_nothing_example :
    (last_state.offsets ≡ [])
    ⊎ ((last_state.offsets ≡ sample_record ∷ [])
        × (IsAssessed processor sample_record.value last_state.world.tables
            ⊎ IsDeadLettered processor letter sample_record last_state.broker))
handle_record-loses_nothing_example =
    handle_record-loses_nothing processor platform-IsPlatform steady letter sample_record
      (failing_turn ∷ good_turn ∷ []) first_state
