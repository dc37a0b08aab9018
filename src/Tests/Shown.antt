-- ===== src/Tests/Shown.antt =====
-- A delivered event, as the API shows it, at a concrete input.
use learn_go_project.Prelude.{
  ◌≤◌, String, ◌≡◌, refl, none, pos, count_key, find_key, has_char, arith,
}
use learn_go_project.Store.Tables.{no_tables, label_key}
use learn_go_project.Store.Evaluate.{no_faults}
use learn_go_project.Store.Records.{scan_label}
use learn_go_project.Store.Consistency.{no_tables-IsConsistent}
use learn_go_project.Store.Redelivery.{as_stored}
use learn_go_project.Service.Processor.Delivery.{evaluator-own}
use learn_go_project.HttpApi.Handlers.{Request, Body, write_json, get_transaction}
use learn_go_project.HttpApi.Pages.{repository, no_outage}
use learn_go_project.HttpApi.Stored.{get_transaction-evaluate_event}
use learn_go_project.Float.{Whole, whole_float}
use learn_go_project.Tests.Sample.{event, platform, platform-IsPlatform, processor}
use learn_go_project.Tests.Deliveries.{evaluate, created, first_tables, first_run}

abbrev request : Request
request = record { limit = ""; action = ""; cursor = ""; model_version = ""; id = "tx-1" }

no_label : (k : String) → count_key label_key k (no_tables {F = Whole}).labels ≤ 1
unfolding count_key
no_label k = omega arith

get_transaction-evaluate_event_example :
    get_transaction (repository platform no_outage first_tables) request
    ≡ write_json 200 (
        Body.transaction (record {
          transaction = event 500;
          assessment = as_stored platform created;
          label = none;
        }))
unfolding has_char find_key scan_label
get_transaction-evaluate_event_example =
    get_transaction-evaluate_event platform platform-IsPlatform no_faults (event 500) (evaluate 500)
      no_tables first_tables created (evaluator-own processor (pos 9_000) (event 500))
      no_tables-IsConsistent no_label first_run request refl refl
