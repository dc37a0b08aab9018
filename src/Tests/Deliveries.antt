-- ===== src/Tests/Deliveries.antt =====
-- Deliveries and database calls at concrete inputs.
use learn_go_project.Prelude.{
  ℕ, ◌≡◌, ◌⊎◌, refl, true, false, some, List, [], ◌∷◌, pos, ◌+ℤ◌, ◌-ℤ◌, has_key, find_key, arith,
}
use learn_go_project.Errors.{Error, text, Result, ok, err, is_permanent, is_unprocessable}
use learn_go_project.Exec.{committed, unanswered}
use learn_go_project.Float.{Whole, whole, whole_float}
use learn_go_project.Domain.{
  Assessment, History, schema_version, validate, known_entry_mode, missing_ids, missing_merchant,
}
use learn_go_project.Features.{extract, is_risky, hour, is_night}
use learn_go_project.Model.{
  score, score_loop, signal, feature_value, before, insert_signal, sort_signals,
}
use learn_go_project.Policy.{decide}
use learn_go_project.Store.Tables.{
  Tables, TransactionRow, no_tables, label_key, label_event, with_label, insert_transaction,
  insert_outbox, insert_assessment,
}
use learn_go_project.Store.History.{
  in_window, bool_or, sum, scan_int64, scan_bool, account_rows, spend, aggregate, select_history,
}
use learn_go_project.Store.Consistency.{no_tables-IsConsistent}
use learn_go_project.Store.History.Window.{earlier, expected, select_history-eq-expected}
use learn_go_project.Store.Evaluate as Evaluate
use learn_go_project.Store.Evaluate.{
  Faults, no_faults, transaction_row, subject, get_assessment, read_assessment, evaluate_event,
  in_transaction, end_transaction, body, fresh, duplicate, store_assessment, encode_event,
  record_event, load_duplicate, load_history, encode_signals, encode_payload, enqueue,
}
use learn_go_project.Store.Evaluate.Outcome.{Created, Found, extended}
use learn_go_project.Store.Evaluate.Progress.{IsStorable, evaluate_event-IsStorable}
use learn_go_project.Store.Evaluate.Atomic.{Effect, evaluate_event-Effect, evaluate_event-ok}
use learn_go_project.Store.Redelivery.{as_stored, redelivered}
use learn_go_project.Store.Labels.{label_row, store_label, store_label_cases}
use learn_go_project.Service.Metrics.{new_metrics, inc_duplicates, inc_processed, observe}
use learn_go_project.Service.Processor.{
  World, transaction, evaluator, assess, conclude, validated, decoded, handle_transaction,
}
use learn_go_project.Service.Processor.Accounting.{Counted, handle_transaction-Counted}
use learn_go_project.Service.Processor.Delivery.{
  Arrival, deliver, get_assessment-deliver, handle_transaction-refuses,
}
use learn_go_project.Service.Processor.Again.{handle_transaction-again}
use learn_go_project.Tests.Sample.{
  event, fraud, log_amount, platform, platform-IsPlatform, processor, start,
}

abbrev pub evaluate : ℕ → History → Result (Assessment Whole)
evaluate n = evaluator processor (pos 9_000) (event n)

-- The answer to the COMMIT is lost, and the payload is delivered again with another amount.
abbrev lost_answer : Faults
lost_answer = record no_faults { commit = unanswered (text "connection reset") }

abbrev two_arrivals : List Arrival
two_arrivals =
    record { faults = lost_answer; now = pos 9_000; payload = 500 ∷ [] }
    ∷ record { faults = no_faults; now = pos 10_000; payload = 700 ∷ [] }
    ∷ []

handle_transaction-Counted_example :
    let out = handle_transaction processor lost_answer (pos 9_000) (500 ∷ []) start in
    Counted transaction out.0 start.metrics out.1.metrics
handle_transaction-Counted_example =
    handle_transaction-Counted processor lost_answer (pos 9_000) (500 ∷ []) start

evaluate_event-Effect_example :
    Effect platform
      (event 500)
      (evaluate 500)
      no_tables
      (evaluate_event platform lost_answer (event 500) (evaluate 500) no_tables).1
evaluate_event-Effect_example =
    evaluate_event-Effect platform lost_answer (event 500) (evaluate 500) no_tables

-- What the model makes of an amount of 5 pounds, and what the database keeps of it.
abbrev pub created : Assessment Whole
created = record {
  schema_version = schema_version;
  event_id = "assessment-tx-1";
  transaction_id = "tx-1";
  assessed_at = pos 9_000;
  model_version = "model-1";
  risk_score = whole 1;
  recommended_action = "escalate";
  signals = log_amount 5 5 ∷ [];
}

abbrev pub first_tables : Tables Whole
first_tables = extended platform (event 500) (500 ∷ []) created (5 ∷ 5 ∷ []) [] no_tables

pub first_run :
    evaluate_event platform no_faults (event 500) (evaluate 500) no_tables
    ≡ (ok (created, true), first_tables)
unfolding evaluate_event in_transaction end_transaction body fresh store_assessment encode_event
    record_event load_history encode_signals encode_payload enqueue Evaluate.score assess extract
    is_risky hour is_night score score_loop signal feature_value before insert_signal sort_signals
    decide insert_transaction insert_outbox insert_assessment has_key select_history aggregate spend
    account_rows in_window bool_or sum scan_int64 scan_bool ◌+ℤ◌ ◌-ℤ◌
first_run = refl

evaluate_event-ok_example :
    (Found platform (event 500) created no_tables first_tables × (true ≡ false))
    ⊎ (Created platform (event 500) (evaluate 500) created no_tables first_tables × (true ≡ true))
evaluate_event-ok_example =
    evaluate_event-ok platform no_faults (event 500) (evaluate 500) no_tables first_run

first_Created : Created platform (event 500) (evaluate 500) created no_tables first_tables
unfolding assess extract is_risky hour is_night score score_loop signal feature_value before
    insert_signal sort_signals decide has_key select_history aggregate spend account_rows in_window
    bool_or sum scan_int64 scan_bool ◌+ℤ◌ ◌-ℤ◌
first_Created = record {
  raw = 500 ∷ [];
  signals = 5 ∷ 5 ∷ [];
  payload = [];
  history = record {
    transaction_count_10m = pos 0;
    spend_minor_1h = pos 0;
    seen_merchant = false;
    seen_country = false;
  };
  encoded = refl;
  new_key = refl;
  new_event = refl;
  loaded = refl;
  scored = refl;
  encoded_signals = refl;
  encoded_payload = refl;
  new_assessment = refl;
  new_assessment_event = refl;
  new_outbox_event = refl;
  after = refl;
}

first_IsStorable :
    IsStorable platform (event 500) (evaluate 500) created (500 ∷ []) (5 ∷ 5 ∷ []) [] no_tables
unfolding assess extract is_risky hour is_night score score_loop signal feature_value before
    insert_signal sort_signals decide has_key select_history aggregate spend account_rows in_window
    bool_or sum scan_int64 scan_bool expected ◌+ℤ◌ ◌-ℤ◌
first_IsStorable = record {
  encoded = refl;
  new_key = refl;
  new_event = refl;
  fits = refl;
  scored = refl;
  own = refl;
  at_least_zero = refl;
  at_most_one = refl;
  encoded_signals = refl;
  encoded_payload = refl;
  new_assessment_event = refl;
  new_outbox_event = refl;
}

evaluate_event-IsStorable_example :
    evaluate_event platform no_faults (event 500) (evaluate 500) no_tables
    ≡ (ok (created, true), first_tables)
evaluate_event-IsStorable_example =
    evaluate_event-IsStorable platform (event 500) (evaluate 500) no_tables no_tables-IsConsistent
      first_IsStorable

-- The same transaction with another amount.
redelivered_example :
    evaluate_event platform no_faults (event 700) (evaluate 700) first_tables
    ≡ (ok (as_stored platform created, false), first_tables)
redelivered_example =
    redelivered platform platform-IsPlatform (event 500) (event 700) (evaluate 500) (evaluate 700)
      created (700 ∷ []) no_tables first_tables first_Created refl refl refl

abbrev after_first : World Whole
after_first = record {
  tables = first_tables;
  metrics = observe "escalate" "model-1" (inc_processed transaction new_metrics);
}

first_handled :
    handle_transaction processor no_faults (pos 9_000) (500 ∷ []) start ≡ (ok tt, after_first)
unfolding handle_transaction decoded validated conclude validate known_entry_mode missing_ids
    missing_merchant
first_handled = simp first_run refl

handle_transaction-again_example :
    handle_transaction processor no_faults (pos 10_000) (500 ∷ []) after_first
    ≡ (ok tt, record after_first { metrics = inc_duplicates transaction after_first.metrics })
handle_transaction-again_example =
    handle_transaction-again processor platform-IsPlatform no_faults (pos 9_000) (pos 10_000)
      (500 ∷ []) start after_first first_handled

get_assessment-deliver_example :
    get_assessment platform "tx-1" (deliver processor two_arrivals after_first).tables
    ≡ ok (as_stored platform created)
unfolding get_assessment read_assessment find_key
get_assessment-deliver_example =
    get_assessment-deliver processor two_arrivals "tx-1" (as_stored platform created) after_first
      refl

handle_transaction-refuses_example :
    (x : Error) × ((handle_transaction processor no_faults (pos 9_000) [] start).0 ≡ err x)
    × (is_permanent x ≡ true)
    × ((handle_transaction processor no_faults (pos 9_000) [] start).1.tables ≡ start.tables)
handle_transaction-refuses_example =
    handle_transaction-refuses processor no_faults (pos 9_000) [] start
      (λ e h. absurd (ground arith))

-- An earlier transaction of the account, half an hour before.
abbrev earlier_row : TransactionRow
earlier_row = record (transaction_row platform (event 500) (500 ∷ [])) {
  transaction_id = "tx-0";
  event_id = "event-0";
  occurred_at = pos 1_800_000_000;
}

select_history-eq-expected_example :
    select_history platform.amount_minor
      (subject platform (event 500))
      (earlier_row ∷ transaction_row platform (event 500) (500 ∷ []) ∷ [])
    ≡ ok (expected platform.amount_minor (subject platform (event 500)) (earlier_row ∷ []))
unfolding expected earlier sum scan_int64 ◌+ℤ◌ ◌-ℤ◌
select_history-eq-expected_example =
    select_history-eq-expected (subject platform (event 500))
      (transaction_row platform (event 500) (500 ∷ [])) refl refl platform.amount_minor
      (earlier_row ∷ []) refl

abbrev labelled : Tables Whole
labelled = with_label (label_row platform fraud) first_tables

store_label_cases_example :
    ((has_key label_key "tx-1" labelled.labels ≡ true)
      × (store_label platform committed fraud labelled ≡ (ok false, labelled)))
    ⊎ (((e : Error) × (store_label platform committed fraud labelled ≡ (err e, labelled))
          × (is_unprocessable e ≡ true)
          × (has_key label_key "tx-1" labelled.labels ≡ false)
          × (has_key label_event "label-1" labelled.labels ≡ true))
        ⊎ ((has_key label_key "tx-1" labelled.labels ≡ false)
            × (has_key label_event "label-1" labelled.labels ≡ false)
            × (store_label platform committed fraud labelled
                ≡ (ok true, with_label (label_row platform fraud) labelled))
            × (find_key label_key "tx-1" (with_label (label_row platform fraud) labelled).labels
                ≡ some (label_row platform fraud))))
store_label_cases_example = store_label_cases platform fraud labelled
