-- ===== src/Service/System/Soundness.antt =====
-- The invariant of the service.
use learn_go_project.Prelude.{
  ℕ, ◌≤◌, String, count_key, ◌≡◌, sym, subst, false≢true, Bool, true, false, ◌⊎◌, inl, inr, Option,
  none, some, [], ◌∷◌, ◌++◌, All, All-append, arith,
}
use learn_go_project.Errors.{Error, Result, ok, err}
use learn_go_project.Exec.{Commit}
use learn_go_project.Float.{Float64}
use learn_go_project.Platform.{Platform, Bytes}
use learn_go_project.Domain.{
  TransactionCreated, FraudLabel, History, Assessment, Time, validate_label,
}
use learn_go_project.Store.Tables.{Tables, LabelRow, label_key, with_label, insert_label}
use learn_go_project.Store.Evaluate.{Faults, evaluate_event}
use learn_go_project.Store.Evaluate.Atomic.{Effect, undone, stored, evaluate_event-Effect}
use learn_go_project.Store.Consistency.{
  IsConsistent, no_tables-IsConsistent, evaluate_event-IsConsistent,
}
use learn_go_project.Store.Labels.{label_row, store_label, one_label-store_label}
use learn_go_project.Store.Outbox.{OutboxFaults}
use learn_go_project.Store.Outbox.Batch.{IsCovered, IsCovered-append, send_event}
use learn_go_project.Store.Outbox.Delivery.{publish_outbox-IsCovered}
use learn_go_project.Store.Outbox.Keeps.{publish_outbox_keeps, publish_outbox-IsConsistent}
use learn_go_project.Stream.Producer.{
  Broker, Network, Message, Delivery, delivered, undelivered, unconfirmed, message, produce,
  with_topic, publish, dead_letter_topic,
}
use learn_go_project.Stream.Consumer.{Record, dead_letter_error, publish_dead_letter}
use learn_go_project.Service.Processor.{
  Processor, World, evaluator, handle_transaction, conclude_label, validated_label, decoded_label,
  handle_label,
}
use learn_go_project.Service.Processor.Delivery.{
  evaluator-own, handle_transaction-Written, keeps-of_Written,
}
use learn_go_project.Service.Outbox.{Site, batch_size, counted, flush, count_failure}
use learn_go_project.Service.System.{
  Step, transaction_delivered, label_delivered, dead_lettered, flushed, Reachable, at_start, after,
}

abbrev pub HasOneLabel : {F : Type 0} → Tables F → Type 0
HasOneLabel db = (k : String) → count_key label_key k db.labels ≤ 1

-- What holds of a database and a broker between two steps.
pub record IsSound {F : Type 0} (b : Broker) (db : Tables F) : Type 0 where
  -- every event has one transaction, one assessment and one outbox row, or none of them
  pub consistent : IsConsistent db
  -- an outbox row that is marked as published has its message in the broker
  pub covered : All (IsCovered b) db.outbox
  -- a transaction has one label at most
  pub labelled : HasOneLabel db

module _ {F : Type 0} ⦃f : Float64 F⦄ where
  Effect-IsCovered :
      (p : Platform F) (e : TransactionCreated) (evaluate : History → Result (Assessment F))
      (b : Broker) (db db' : Tables F)
      → Effect p e evaluate db db'
      → All (IsCovered b) db.outbox
      → All (IsCovered b) db'.outbox
  Effect-IsCovered p e evaluate b db db' (undone n _ same) h =
      subst (λ (t : Tables F). All (IsCovered b) t.outbox) same h
  Effect-IsCovered p e evaluate b db db' (stored a c) h =
      subst (λ (t : Tables F). All (IsCovered b) t.outbox) c.after
        (All-append (IsCovered b) db.outbox (_ ∷ []) h ((λ k. absurd (false≢true k)), tt))

  Effect-HasOneLabel :
      (p : Platform F) (e : TransactionCreated) (evaluate : History → Result (Assessment F))
      (db db' : Tables F)
      → Effect p e evaluate db db'
      → HasOneLabel db
      → HasOneLabel db'
  Effect-HasOneLabel p e evaluate db db' (undone n _ same) h =
      subst (λ (t : Tables F). HasOneLabel t) same h
  Effect-HasOneLabel p e evaluate db db' (stored a c) h =
      subst (λ (t : Tables F). HasOneLabel t) c.after h

  evaluate_event-IsSound :
      (P : Processor F) (faults : Faults) (now : Time) (e : TransactionCreated) (b : Broker)
      (db : Tables F)
      → IsSound b db
      → IsSound b (evaluate_event P.platform faults e (evaluator P now e) db).1
  evaluate_event-IsSound P faults now e b db s = record {
    consistent =
        evaluate_event-IsConsistent P.platform faults e (evaluator P now e) db
          (evaluator-own P now e) s.consistent;
    covered =
        Effect-IsCovered P.platform e (evaluator P now e) b db
          (evaluate_event P.platform faults e (evaluator P now e) db).1
          (evaluate_event-Effect P.platform faults e (evaluator P now e) db) s.covered;
    labelled =
        Effect-HasOneLabel P.platform e (evaluator P now e) db
          (evaluate_event P.platform faults e (evaluator P now e) db).1
          (evaluate_event-Effect P.platform faults e (evaluator P now e) db) s.labelled;
  }

module _ {F : Type 0} (p : Platform F) (b : Broker) where
  with_label-IsSound :
      (row : LabelRow) (db : Tables F)
      → IsSound b db
      → HasOneLabel (with_label row db)
      → IsSound b (with_label row db)
  with_label-IsSound row db s one = record {
    consistent = record {
      one_transaction = s.consistent.one_transaction;
      one_event = s.consistent.one_event;
      assessed = s.consistent.assessed;
      queued = s.consistent.queued;
      ids_below = s.consistent.ids_below;
      ids_ascending = s.consistent.ids_ascending;
    };
    covered = s.covered;
    labelled = one;
  }

  -- A call of `StoreLabel` changes nothing or adds a label.
  pub store_label-labels :
      (c : Commit) (l : FraudLabel) (db : Tables F)
      → ((store_label p c l db).1 ≡ db) ⊎ ((store_label p c l db).1 ≡ with_label (label_row p l) db)
  unfolding store_label insert_label
  store_label-labels c l db = ground arith

  store_label-IsSound :
      (c : Commit) (l : FraudLabel) (db : Tables F)
      → IsSound b db
      → IsSound b (store_label p c l db).1
  store_label-IsSound c l db s = elim (store_label-labels c l db) [
    | inl same ↦ subst (IsSound b) (sym same) s
    | inr more ↦ subst (IsSound b) (sym more) (
        with_label-IsSound (label_row p l) db s (
          subst (λ (t : Tables F). HasOneLabel t) more (one_label-store_label p c l db s.labelled)))
  ]

  conclude_label-IsSound :
      (w : World F) (out : Result Bool × Tables F)
      → IsSound b out.1
      → IsSound b (conclude_label p w out).1.tables
  unfolding conclude_label
  conclude_label-IsSound w (err e, db) s = s
  conclude_label-IsSound w (ok true, db) s = s
  conclude_label-IsSound w (ok false, db) s = s

  handle_label-IsSound :
      (c : Commit) (payload : Bytes) (w : World F)
      → IsSound b w.tables
      → IsSound b (handle_label p c payload w).1.tables
  unfolding handle_label decoded_label validated_label
  handle_label-IsSound c payload w s = read (p.decode_label payload)
    where
      checked :
          (l : FraudLabel) (v : Result (Unit {0})) → IsSound b (validated_label p c l v w).1.tables
      checked l (err e) = s
      checked l (ok _) =
          conclude_label-IsSound w (store_label p c l w.tables) (store_label-IsSound c l w.tables s)

      read : (d : Result FraudLabel) → IsSound b (decoded_label p c d w).1.tables
      read (err e) = s
      read (ok l) = checked l (validate_label l)

module _ {F : Type 0} (db : Tables F) where
  more-IsSound : (b more : Broker) → IsSound b db → IsSound (b ++ more) db
  more-IsSound b more s = record {
    consistent = s.consistent;
    covered = IsCovered-append b more db.outbox s.covered;
    labelled = s.labelled;
  }

  publish_dead_letter-IsSound :
      (net : Network) (letter : Result Bytes) (r : Record) (b : Broker)
      → IsSound b db
      → IsSound (publish_dead_letter net letter r b).1 db
  unfolding publish_dead_letter publish
  publish_dead_letter-IsSound net (err e) r b s = s
  publish_dead_letter-IsSound net (ok payload) r b s = sent (net m b)
    where
      m : Message
      m = message dead_letter_topic r.key payload

      sent : (d : Delivery) → IsSound (dead_letter_error (with_topic (produce d m b))).1 db
      sent delivered = more-IsSound b (m ∷ []) s
      sent (undelivered e) = s
      sent (unconfirmed e) = more-IsSound b (m ∷ []) s

module _ {F : Type 0} where
  count_failure-IsSound :
      (out : Option Error × Site F)
      → IsSound out.1.broker out.1.world.tables
      → IsSound (count_failure out).broker (count_failure out).world.tables
  count_failure-IsSound (none, s) h = h
  count_failure-IsSound (some e, s) h = h

  flush-IsSound :
      (net : Network) (locked : ℕ → Bool) (faults : OutboxFaults) (s : Site F)
      → IsSound s.broker s.world.tables
      → IsSound (flush net locked faults s).1.broker (flush net locked faults s).1.world.tables
  unfolding flush counted
  flush-IsSound net locked faults s h = record {
    consistent =
        publish_outbox-IsConsistent s.world.tables (send_event net) locked faults batch_size
          s.broker h.consistent;
    covered =
        publish_outbox-IsCovered s.world.tables net locked faults batch_size s.broker
          h.consistent.ids_ascending h.covered;
    labelled =
        publish_outbox_keeps s.world.tables HasOneLabel (λ id rows one. one) (send_event net) locked
          faults batch_size s.broker h.labelled;
  }

module _ {F : Type 0} ⦃f : Float64 F⦄ (P : Processor F) where
  Step-IsSound :
      (s t : Site F)
      → Step P s t
      → IsSound s.broker s.world.tables
      → IsSound t.broker t.world.tables
  Step-IsSound s t (transaction_delivered faults now payload) h =
      keeps-of_Written P (IsSound s.broker) faults now s.world
        (handle_transaction P faults now payload s.world).1
        (λ e. evaluate_event-IsSound P faults now e s.broker s.world.tables)
        (handle_transaction-Written P faults now payload s.world) h
  Step-IsSound s t (label_delivered c payload) h =
      handle_label-IsSound P.platform s.broker c payload s.world h
  Step-IsSound s t (dead_lettered net letter r) h =
      publish_dead_letter-IsSound s.world.tables net letter r s.broker h
  Step-IsSound s t (flushed net locked faults) h =
      count_failure-IsSound (flush net locked faults s) (flush-IsSound net locked faults s h)

  -- In every state that the service can reach from an empty database and an empty broker, by
  -- deliveries of transactions and labels, dead letters and flushes of the outbox in any order, and
  -- whatever fails in them, the tables are consistent (a transaction id and an event id occur in one
  -- row of transactions at most, and a transaction has as many assessments and outbox rows as rows
  -- of transactions), no transaction has two labels, and every outbox row that is marked as published has its message in the broker.
  pub Reachable-IsSound : (s : Site F) → Reachable P s → IsSound s.broker s.world.tables
  unfolding count_key
  Reachable-IsSound s at_start = record {
    consistent = no_tables-IsConsistent;
    covered = tt;
    labelled = λ k. omega arith;
  }
  Reachable-IsSound s (after {s = before} r step) =
      Step-IsSound before s step (Reachable-IsSound before r)
