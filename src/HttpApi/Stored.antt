-- ===== src/HttpApi/Stored.antt =====
-- A transaction that `Evaluate` stored, as the API shows it.
use learn_go_project.Prelude.{
  ◌≤◌, String, ◌≡◌, refl, sym, ◌∙◌, ap, subst, Bool, true, false, false≢true, ◌||◌, ◌==◌, eq_refl,
  inl, inr, Option, none, some, [], ◌∷◌, ◌++◌, has_char, count_key, find_key, has_key,
  find_key-snoc,
}
use learn_go_project.Errors.{Result, ok, ◌>>=◌}
use learn_go_project.Float.{Float64}
use learn_go_project.Domain.{TransactionCreated, TransactionRecord, History, Assessment}
use learn_go_project.Platform.{Platform, IsPlatform, Bytes}
use learn_go_project.Store.Tables.{
  Tables, TransactionRow, AssessmentRow, transaction_key, assessment_key, label_key,
}
use learn_go_project.Store.Evaluate.{Faults, transaction_row, assessment_row, evaluate_event}
use learn_go_project.Store.Evaluate.Outcome.{extended}
use learn_go_project.Store.Evaluate.Atomic.{evaluate_event-ok}
use learn_go_project.Store.Consistency.{IsConsistent, evaluate_event-IsConsistent}
use learn_go_project.Store.Redelivery.{as_stored}
use learn_go_project.Store.Records.{JoinedRow, scan_record, scan_label, scanned_assessment}
use learn_go_project.Store.Records.Lookup.{join_found, look_up}
use learn_go_project.HttpApi.Handlers.{
  Request, Body, Response, write_json, write_error, write_record, get_transaction,
}
use learn_go_project.HttpApi.Pages.{repository, no_outage, get_transaction_response}

module _ {F : Type 0} (p : Platform F) where
  -- The row of a new event, joined with a label that came before it.
  new_row : TransactionCreated → Bytes → Assessment F → Bytes → Tables F → JoinedRow F
  new_row e raw a signals db = record {
    transaction = transaction_row p e raw;
    assessment = assessment_row p a signals;
    label = find_key label_key e.transaction_id db.labels;
  }

  -- What is shown of an event and its assessment.
  abbrev pub shown_record : TransactionCreated → Assessment F → Tables F → TransactionRecord F
  shown_record e a db = record {
    transaction = e;
    assessment = as_stored p a;
    label = scan_label p e (find_key label_key e.transaction_id db.labels);
  }

  look_up-extended :
      (e : TransactionCreated) (raw : Bytes) (a : Assessment F) (signals payload : Bytes)
      (db : Tables F)
      → a.transaction_id ≡ e.transaction_id
      → has_key transaction_key e.transaction_id db.transactions ≡ false
      → has_key assessment_key a.transaction_id db.assessments ≡ false
      → look_up e.transaction_id (extended p e raw a signals payload db)
        ≡ some (new_row e raw a signals db)
  unfolding look_up new_row
  look_up-extended e raw a signals payload db own new_key new_assessment =
      let t : find_key transaction_key e.transaction_id
            (db.transactions ++ transaction_row p e raw ∷ [])
          ≡ some (transaction_row p e raw) =
        find_key-snoc transaction_key e.transaction_id db.transactions (transaction_row p e raw)
          new_key
        ∙ rw (eq_refl e.transaction_id) refl in
      let s : find_key assessment_key e.transaction_id
            (db.assessments ++ assessment_row p a signals ∷ [])
          ≡ some (assessment_row p a signals) =
        subst
          (λ (id : String).
            find_key assessment_key id (db.assessments ++ assessment_row p a signals ∷ [])
            ≡ some (assessment_row p a signals))
          own
          (find_key-snoc assessment_key a.transaction_id db.assessments (assessment_row p a signals)
              new_assessment
            ∙ rw (eq_refl a.transaction_id) refl) in
      let l = find_key label_key e.transaction_id db.labels in
      ap
        (λ (o : Option TransactionRow).
          join_found o
            (find_key assessment_key e.transaction_id
              (db.assessments ++ assessment_row p a signals ∷ []))
            l)
        t
      ∙ ap (λ (o : Option (AssessmentRow F)). join_found (some (transaction_row p e raw)) o l) s

  scan_record-new_row :
      IsPlatform p
      → (e : TransactionCreated) (raw : Bytes) (a : Assessment F) (signals : Bytes) (db : Tables F)
      → a.transaction_id ≡ e.transaction_id
      → p.encode_transaction e ≡ ok raw
      → p.encode_signals a.signals ≡ ok signals
      → (scan_record p (new_row e raw a signals db) >>= λ s. ok s.0) ≡ ok (shown_record e a db)
  unfolding scan_record scanned_assessment new_row
  scan_record-new_row laws e raw a signals db own encoded encoded_signals =
      rw (laws.keeps_events e raw encoded) (
        rw (laws.keeps_signals a.signals signals encoded_signals) (
          ap
            (λ (id : String). ok (record {
              transaction = e;
              assessment = record (as_stored p a) { transaction_id = id };
              label = scan_label p e (find_key label_key e.transaction_id db.labels);
            }))
            (sym own)))

module _ {F : Type 0} ⦃f : Float64 F⦄ (p : Platform F) where
  -- What `Evaluate` stored, the API shows: if a call stores an event, in a consistent database with one
  -- label for a transaction at most, and the evaluator names the event's transaction in its assessment,
  -- then a request for the transaction is answered with 200, the event as it came, and the assessment
  -- with its time in the precision of its column. Conditions: the id of the event is not empty and
  -- holds no slash, and the query is answered.
  pub get_transaction-evaluate_event :
      (laws : IsPlatform p) (faults : Faults) (e : TransactionCreated)
      (evaluate : History → Result (Assessment F)) (db db' : Tables F) (a : Assessment F)
      → ((h : History) (x : Assessment F) → evaluate h ≡ ok x → x.transaction_id ≡ e.transaction_id)
      → IsConsistent db
      → ((k : String) → count_key label_key k db.labels ≤ 1)
      → evaluate_event p faults e evaluate db ≡ (ok (a, true), db')
      → (r : Request) → r.id ≡ e.transaction_id
      → (r.id == "" || has_char b'/' r.id) ≡ false
      → get_transaction (repository p no_outage db') r
        ≡ write_json 200 (Body.transaction (shown_record p e a db))
  unfolding write_record
  get_transaction-evaluate_event laws faults e evaluate db db' a own c one done r same valid =
      elim (evaluate_event-ok p faults e evaluate db done) [
        | inl (found, never) ↦ absurd (false≢true (sym never))
        | inr (new, fresh) ↦
            let named = own new.history a new.scored in
            let consistent : IsConsistent db' =
              subst (λ (x : Result (Assessment F × Bool) × Tables F). IsConsistent x.1) done
                (evaluate_event-IsConsistent p faults e evaluate db own c) in
            let labels : (k : String) → count_key label_key k db'.labels ≤ 1 =
              subst (λ (t : Tables F). (k : String) → count_key label_key k t.labels ≤ 1) new.after
                one in
            let row : look_up r.id db' ≡ some (new_row p e new.raw a new.signals db) =
              ap (λ (id : String). look_up id db') same
              ∙ ap (look_up e.transaction_id) (sym new.after)
              ∙ look_up-extended p e new.raw a new.signals new.payload db named new.new_key
                  new.new_assessment in
            get_transaction_response p db' r consistent labels valid
            ∙ ap
                (λ (o : Option (JoinedRow F)). elim o as (λ x. Response F) [
                  | none ↦ write_error 404 "transaction not found"
                  | some found ↦ write_record (scan_record p found >>= λ s. ok s.0)
                ])
                row
            ∙ ap write_record (
                scan_record-new_row p laws e new.raw a new.signals db named new.encoded
                  new.encoded_signals)
      ]
