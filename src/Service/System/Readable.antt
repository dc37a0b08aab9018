-- ===== src/Service/System/Readable.antt =====
-- What the service stores, it can read.
use learn_go_project.Prelude.{
  ℕ, ◌≡◌, refl, sym, subst, true, false, inl, inr, Option, none, some, List, [], ◌∷◌, All,
  All-append,
}
use learn_go_project.Errors.{Error, Result, ok, err}
use learn_go_project.Exec.{Commit}
use learn_go_project.Float.{Float64}
use learn_go_project.Platform.{Platform, IsPlatform, Bytes}
use learn_go_project.Domain.{
  TransactionCreated, FraudLabel, History, Assessment, Signal, Time, validate_label,
}
use learn_go_project.Store.Tables.{
  Tables, TransactionRow, AssessmentRow, LabelRow, OutboxRow, no_tables, with_label,
}
use learn_go_project.Store.Evaluate.{Faults, evaluate_event}
use learn_go_project.Store.Evaluate.Atomic.{Effect, undone, stored, evaluate_event-Effect}
use learn_go_project.Store.Labels.{label_row, store_label}
use learn_go_project.Store.Outbox.{mark, with_rows}
use learn_go_project.Store.Outbox.Batch.{send_event}
use learn_go_project.Store.Outbox.Keeps.{publish_outbox_keeps}
use learn_go_project.Service.Processor.{
  Processor, World, evaluator, handle_transaction, conclude_label, validated_label, decoded_label,
  handle_label,
}
use learn_go_project.Service.Processor.Delivery.{handle_transaction-Written, keeps-of_Written}
use learn_go_project.Service.Outbox.{Site, batch_size, counted, flush, count_failure}
use learn_go_project.Service.System.{
  Step, transaction_delivered, label_delivered, dead_lettered, flushed, Reachable, at_start, after,
}
use learn_go_project.Service.System.Soundness.{store_label-labels}

module _ {F : Type 0} ⦃f : Float64 F⦄ (P : Processor F) (Q : Tables F → Type 0)
    (evaluated : (faults : Faults) (now : Time) (e : TransactionCreated) (db : Tables F)
      → Q db
      → Q (evaluate_event P.platform faults e (evaluator P now e) db).1)
    (labelled : (row : LabelRow) (db : Tables F) → Q db → Q (with_label row db))
    (marked : (db : Tables F) (id : ℕ) (rows : List OutboxRow)
      → Q (with_rows db rows)
      → Q (with_rows db (mark id rows))) where
  store_label_keeps :
      (c : Commit) (l : FraudLabel) (db : Tables F) → Q db → Q (store_label P.platform c l db).1
  store_label_keeps c l db q = elim (store_label-labels P.platform [] c l db) [
    | inl same ↦ subst Q (sym same) q
    | inr more ↦ subst Q (sym more) (labelled (label_row P.platform l) db q)
  ]

  conclude_label_keeps :
      (w : World F) (out : Result _ × Tables F)
      → Q out.1
      → Q (conclude_label P.platform w out).1.tables
  unfolding conclude_label
  conclude_label_keeps w (err e, db) q = q
  conclude_label_keeps w (ok true, db) q = q
  conclude_label_keeps w (ok false, db) q = q

  handle_label_keeps :
      (c : Commit) (payload : Bytes) (w : World F)
      → Q w.tables
      → Q (handle_label P.platform c payload w).1.tables
  unfolding handle_label decoded_label validated_label
  handle_label_keeps c payload w q = read (P.platform.decode_label payload)
    where
      checked :
          (l : FraudLabel) (v : Result (Unit {0})) → Q (validated_label P.platform c l v w).1.tables
      checked l (err e) = q
      checked l (ok _) =
          conclude_label_keeps w (store_label P.platform c l w.tables)
            (store_label_keeps c l w.tables q)

      read : (d : Result FraudLabel) → Q (decoded_label P.platform c d w).1.tables
      read (err e) = q
      read (ok l) = checked l (validate_label l)

  count_failure_keeps :
      (out : Option Error × Site F) → Q out.1.world.tables → Q (count_failure out).world.tables
  count_failure_keeps (none, s) q = q
  count_failure_keeps (some e, s) q = q

  Step_keeps : (s t : Site F) → Step P s t → Q s.world.tables → Q t.world.tables
  unfolding flush counted
  Step_keeps s t (transaction_delivered faults now payload) q =
      keeps-of_Written P Q faults now s.world (handle_transaction P faults now payload s.world).1
        (λ e. evaluated faults now e s.world.tables)
        (handle_transaction-Written P faults now payload s.world) q
  Step_keeps s t (label_delivered c payload) q = handle_label_keeps c payload s.world q
  Step_keeps s t (dead_lettered net letter r) q = q
  Step_keeps s t (flushed net locked faults) q = count_failure_keeps (flush net locked faults s) (
      publish_outbox_keeps s.world.tables Q (marked s.world.tables) (send_event net) locked faults
        batch_size s.broker q)

  -- What each call on the store keeps of the tables holds in every reachable state.
  Reachable_keeps : Q no_tables → (s : Site F) → Reachable P s → Q s.world.tables
  Reachable_keeps start s at_start = start
  Reachable_keeps start s (after {s = before} r step) =
      Step_keeps before s step (Reachable_keeps start before r)

module _ {F : Type 0} (p : Platform F) where
  -- The JSON of a row of transactions is that of an event with its id.
  pub record IsEvent (t : TransactionRow) : Type 0 where
    pub event : TransactionCreated
    pub decoded : p.decode_transaction t.raw_event ≡ ok event
    pub named : event.transaction_id ≡ t.transaction_id

  pub record HasSignals (a : AssessmentRow F) : Type 0 where
    pub signals : List (Signal F)
    pub decoded : p.decode_signals a.signals ≡ ok signals

  pub record IsReadable (db : Tables F) : Type 0 where
    pub events : All IsEvent db.transactions
    pub assessments : All HasSignals db.assessments

module _ {F : Type 0} ⦃f : Float64 F⦄ (p : Platform F) (laws : IsPlatform p) where
  Effect-IsReadable :
      (e : TransactionCreated) (evaluate : History → Result (Assessment F)) (db db' : Tables F)
      → Effect p e evaluate db db'
      → IsReadable p db
      → IsReadable p db'
  Effect-IsReadable e evaluate db db' (undone n _ same) h =
      subst (IsReadable p) same (record { events = h.events; assessments = h.assessments })
  Effect-IsReadable e evaluate db db' (stored a c) h = subst (IsReadable p) c.after (record {
    events =
        All-append (IsEvent p) db.transactions (_ ∷ []) h.events
          (record { event = e; decoded = laws.keeps_events e c.raw c.encoded; named = refl }, tt);
    assessments = All-append (HasSignals p) db.assessments (_ ∷ []) h.assessments (
      record {
        signals = a.signals;
        decoded = laws.keeps_signals a.signals c.signals c.encoded_signals;
      },
      tt,
    );
  })

-- Every event and every signal that the service stored can be read back.
pub Reachable-IsReadable :
    {F : Type 0} ⦃f : Float64 F⦄ (P : Processor F)
    → IsPlatform P.platform
    → (s : Site F) → Reachable P s
    → IsReadable P.platform s.world.tables
Reachable-IsReadable P laws =
    Reachable_keeps P (IsReadable P.platform)
      (λ faults now e db.
        Effect-IsReadable P.platform laws e (evaluator P now e) db
          (evaluate_event P.platform faults e (evaluator P now e) db).1
          (evaluate_event-Effect P.platform faults e (evaluator P now e) db))
      (λ row db h. record { events = h.events; assessments = h.assessments })
      (λ db id rows h. record { events = h.events; assessments = h.assessments })
      (record { events = tt; assessments = tt })
