-- ===== src/Service/Processor.antt =====
-- internal/service/processor.go: the handlers of the transactions' and the labels' topic. Logging is
-- left out.
pub mod Accounting
pub mod Delivery
pub mod Again
use learn_go_project.Prelude.{String, Bool, true, false, Option, List, ◌==◌, if◌then◌else◌}
use Prim.Native.String.{◌++◌}
use learn_go_project.Errors.{Error, permanent_error, wrap, Result, ok, err, is_unprocessable}
use learn_go_project.Exec.{Exec, Commit}
use learn_go_project.Float.{Float64}
use learn_go_project.Platform.{Platform, Bytes}
use learn_go_project.Domain.{
  TransactionCreated, FraudLabel, History, FeatureVector, Signal, Assessment, Time, schema_version,
  validate, validate_label,
}
use learn_go_project.Features.{extract}
use learn_go_project.Policy.{Thresholds, decide}
use learn_go_project.Store.Tables.{Tables}
use learn_go_project.Store.Evaluate.{Faults, evaluate_event}
use learn_go_project.Store.Labels.{store_label}
use learn_go_project.Service.Metrics.{Metrics, inc_failures, inc_duplicates, inc_processed, observe}

-- the interface `Scorer`
pub record Scorer (F : Type 0) : Type 0 where
  pub version : String
  pub score : FeatureVector F → F × List (Signal F)

-- the fields of `Processor` that do not change
pub record Processor (F : Type 0) : Type 0 where
  pub platform : Platform F
  pub scorer : Scorer F
  pub policy : Thresholds F

-- what the handlers change: the database and the counters
pub record World (F : Type 0) : Type 0 where
  pub tables : Tables F
  pub metrics : Metrics

abbrev pub transaction : String
transaction = "transaction"

abbrev pub label : String
label = "label"

-- An error that no retry repairs is marked permanent.
unfoldable pub classify : Error → Error
classify e = if is_unprocessable e then permanent_error e else e

module _ {F : Type 0} where
  abbrev pub failed : String → Error → World F → Result (Unit {0}) × World F
  failed kind e w = (err e, record w { metrics = inc_failures kind w.metrics })

  abbrev pub with_tables : World F → Tables F → World F
  with_tables w db = record w { tables = db }

module _ {F : Type 0} ⦃f : Float64 F⦄ (P : Processor F) where
  -- the evaluator that the handler hands to the store, at the time `now`
  unfoldable pub assess : Time → TransactionCreated → History → Assessment F
  assess now event history =
      let (score, signals) = P.scorer.score (extract event history) in
      record {
        schema_version = schema_version;
        event_id = "assessment-" ++ event.transaction_id;
        transaction_id = event.transaction_id;
        assessed_at = now;
        model_version = P.scorer.version;
        risk_score = score;
        recommended_action = decide P.policy score;
        signals = signals;
      }

  abbrev pub evaluator : Time → TransactionCreated → History → Result (Assessment F)
  evaluator now event history = ok (assess now event history)

  -- behind `Evaluate`
  unfoldable pub conclude :
      World F → Result (Assessment F × Bool) × Tables F → Result (Unit {0}) × World F
  unfolding classify
  conclude w (err e, db) = failed transaction (classify e) (with_tables w db)
  conclude w (ok (a, false), db) =
      (ok tt, record w { tables = db; metrics = inc_duplicates transaction w.metrics })
  conclude w (ok (a, true), db) = (
    ok tt,
    record w {
      tables = db;
      metrics = observe a.recommended_action a.model_version (inc_processed transaction w.metrics);
    },
  )

  unfoldable pub validated :
      Faults → Time → TransactionCreated → Result (Unit {0}) → Exec (World F) (Unit {0})
  unfolding conclude
  validated faults now event (err e) w =
      failed transaction (permanent_error (wrap "validate transaction" e)) w
  validated faults now event (ok _) w =
      conclude w (evaluate_event P.platform faults event (evaluator now event) w.tables)

  unfoldable pub decoded : Faults → Time → Result TransactionCreated → Exec (World F) (Unit {0})
  unfolding validated
  decoded faults now (err e) w =
      failed transaction (permanent_error (wrap "decode transaction" e)) w
  decoded faults now (ok event) w = validated faults now event (validate event) w

  -- `HandleTransaction`
  unfoldable pub handle_transaction : Faults → Time → Bytes → Exec (World F) (Unit {0})
  unfolding decoded
  handle_transaction faults now payload = decoded faults now (P.platform.decode_transaction payload)

module _ {F : Type 0} (p : Platform F) where
  unfoldable pub conclude_label : World F → Result Bool × Tables F → Result (Unit {0}) × World F
  unfolding classify
  conclude_label w (err e, db) = failed label (classify e) (with_tables w db)
  conclude_label w (ok true, db) =
      (ok tt, record w { tables = db; metrics = inc_processed label w.metrics })
  conclude_label w (ok false, db) =
      (ok tt, record w { tables = db; metrics = inc_duplicates label w.metrics })

  unfoldable pub validated_label :
      Commit → FraudLabel → Result (Unit {0}) → Exec (World F) (Unit {0})
  unfolding conclude_label
  validated_label c l (err e) w = failed label (permanent_error (wrap "validate label" e)) w
  validated_label c l (ok _) w = conclude_label w (store_label p c l w.tables)

  unfoldable pub decoded_label : Commit → Result FraudLabel → Exec (World F) (Unit {0})
  unfolding validated_label
  decoded_label c (err e) w = failed label (permanent_error (wrap "decode label" e)) w
  decoded_label c (ok l) w = validated_label c l (validate_label l) w

  -- `HandleLabel`
  unfoldable pub handle_label : Commit → Bytes → Exec (World F) (Unit {0})
  unfolding decoded_label
  handle_label c payload = decoded_label c (p.decode_label payload)
