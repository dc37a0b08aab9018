-- ===== src/Service/Processor/Accounting.antt =====
-- What the two handlers count, and which errors they call permanent.
use learn_go_project.Prelude.{
  ◌+◌, String, ◌≡◌, refl, Bool, true, false, ◌==◌, eq_refl, if◌then◌else◌, arith,
}
use learn_go_project.Errors.{Error, Result, ok, err, is_ok}
use learn_go_project.Float.{Float64}
use learn_go_project.Platform.{Bytes}
use learn_go_project.Domain.{TransactionCreated, Assessment, Time, validate}
use learn_go_project.Store.Tables.{Tables}
use learn_go_project.Store.Evaluate.{Faults, evaluate_event}
use learn_go_project.Service.Metrics.{Metrics, inc_failures, inc_duplicates, inc_processed}
use learn_go_project.Service.Processor.{
  Processor, World, transaction, classify, evaluator, conclude, validated, decoded,
  handle_transaction,
}

-- What one call adds to the counters with a label, and to no other label.
pub record Counted (kind : String) (r : Result (Unit {0})) (m m' : Metrics) : Type 0 where
  -- exactly one of the three outcomes is counted
  pub total :
      m'.processed kind + m'.duplicates kind + m'.failures kind
      ≡ m.processed kind + m.duplicates kind + m.failures kind + 1
  -- a failure is counted exactly if the call returns an error
  pub failure : m'.failures kind ≡ m.failures kind + (if is_ok r then 0 else 1)
  pub others :
      (k : String)
      → (k == kind) ≡ false
      → (m'.processed k ≡ m.processed k)
        × (m'.duplicates k ≡ m.duplicates k)
        × (m'.failures k ≡ m.failures k)

failed-Counted :
    (kind : String) (e : Error) (m : Metrics) → Counted kind (err e) m (inc_failures kind m)
failed-Counted kind e m = record {
  total = rw (eq_refl kind) (omega arith);
  failure = rw (eq_refl kind) refl;
  others = λ k h. (refl, refl, rw h refl);
}

duplicate-Counted : (kind : String) (m : Metrics) → Counted kind (ok tt) m (inc_duplicates kind m)
duplicate-Counted kind m = record {
  total = rw (eq_refl kind) (omega arith);
  failure = omega arith;
  others = λ k h. (refl, rw h refl, refl);
}

processed-Counted : (kind : String) (m : Metrics) → Counted kind (ok tt) m (inc_processed kind m)
processed-Counted kind m = record {
  total = rw (eq_refl kind) (omega arith);
  failure = omega arith;
  others = λ k h. (rw h refl, refl, refl);
}

module _ {F : Type 0} ⦃f : Float64 F⦄ (P : Processor F) where
  conclude-Counted :
      (w : World F) (out : Result (Assessment F × Bool) × Tables F)
      → Counted transaction (conclude P w out).0 w.metrics (conclude P w out).1.metrics
  unfolding conclude
  conclude-Counted w (err e, db) = failed-Counted transaction (classify e) w.metrics
  conclude-Counted w (ok (a, false), db) = duplicate-Counted transaction w.metrics
  conclude-Counted w (ok (a, true), db) =
      let c = processed-Counted transaction w.metrics in
      record { total = c.total; failure = c.failure; others = c.others }

  decoded-Counted :
      (faults : Faults) (now : Time) (d : Result TransactionCreated) (w : World F)
      → Counted transaction
          (decoded P faults now d w).0
          w.metrics
          (decoded P faults now d w).1.metrics
  unfolding decoded validated
  decoded-Counted faults now (err e) w = failed-Counted transaction _ w.metrics
  decoded-Counted faults now (ok event) w = checked (validate event)
    where
      checked :
          (v : Result (Unit {0}))
          → Counted transaction
              (validated P faults now event v w).0
              w.metrics
              (validated P faults now event v w).1.metrics
      checked (err e) = failed-Counted transaction _ w.metrics
      checked (ok _) =
          conclude-Counted w
            (evaluate_event P.platform faults event (evaluator P now event) w.tables)

  -- Every delivery of a transaction, whatever the payload and whatever fails, is counted exactly
  -- once, as processed, as a duplicate or as a failure, and as a failure exactly if the handler
  -- returns an error; the counters of other labels stay.
  pub handle_transaction-Counted :
      (faults : Faults) (now : Time) (payload : Bytes) (w : World F)
      → let out = handle_transaction P faults now payload w in
        Counted transaction out.0 w.metrics out.1.metrics
  unfolding handle_transaction
  handle_transaction-Counted faults now payload w = decoded-Counted faults now _ w
