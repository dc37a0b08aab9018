-- ===== src/Store/Redelivery.antt =====
-- A transaction that is delivered again is read, not scored again; and what was stored stays.
use learn_go_project.Prelude.{
  String, ◌≡◌, refl, sym, ◌∙◌, ap, subst, true, false, some, none, find_key, has_key,
  has_key-snoc_self, find_key-snoc, find_key-append_some, List, [], ◌∷◌, ◌++◌, Option-cases, inl,
  inr, eq_refl, arith,
}
use mathlib.Core.List.{append-nil}
use learn_go_project.Errors.{no_rows, Result, ok, err}
use learn_go_project.Float.{Float64}
use learn_go_project.Domain.{TransactionCreated, History, Assessment, schema_version}
use learn_go_project.Platform.{Platform, IsPlatform, Bytes}
use learn_go_project.Store.Tables.{
  Tables, AssessmentRow, transaction_key, assessment_key, insert_transaction,
}
use learn_go_project.Store.Evaluate.{
  Faults, no_faults, transaction_row, assessment_row, read_assessment, get_assessment, encode_event,
  record_event, load_duplicate, duplicate, body, end_transaction, in_transaction, evaluate_event,
}
use learn_go_project.Store.Evaluate.Outcome.{Created}
use learn_go_project.Store.Evaluate.Atomic.{Effect, undone, stored, evaluate_event-Effect}

found_at_end :
    {F : Type 0} (rows : List (AssessmentRow F)) (r : AssessmentRow F)
    → has_key assessment_key r.transaction_id rows ≡ false
    → find_key assessment_key r.transaction_id (rows ++ r ∷ []) ≡ some r
found_at_end rows r fresh =
    find_key-snoc assessment_key r.transaction_id rows r fresh ∙ rw (eq_refl r.transaction_id) refl

module _ {F : Type 0} (p : Platform F) where
  -- An assessment as it is read back: the schema version is filled in, and the time has the
  -- precision of its column.
  abbrev pub as_stored : Assessment F → Assessment F
  as_stored a = record a {
    schema_version = schema_version;
    assessed_at = p.from_timestamptz (p.timestamptz a.assessed_at);
  }

  get_assessment-of_find :
      (k : String) (db : Tables F) (r : AssessmentRow F)
      → find_key assessment_key k db.assessments ≡ some r
      → get_assessment p k db ≡ read_assessment p r
  unfolding get_assessment
  get_assessment-of_find k db r h = rw (h, get_assessment)

  get_assessment-of_missing :
      (k : String) (db : Tables F)
      → find_key assessment_key k db.assessments ≡ none
      → get_assessment p k db ≡ err no_rows
  unfolding get_assessment
  get_assessment-of_missing k db h = rw (h, get_assessment)

  module _ (laws : IsPlatform p) where
    read_assessment-row :
        (a : Assessment F) (signals : Bytes)
        → p.encode_signals a.signals ≡ ok signals
        → read_assessment p (assessment_row p a signals) ≡ ok (as_stored a)
    unfolding read_assessment
    read_assessment-row a signals h = rw (laws.keeps_signals a.signals signals h, read_assessment)

    -- The assessment of a new event is found under the event's transaction.
    pub get_assessment-Created :
        (e : TransactionCreated) (evaluate : History → Result (Assessment F)) (a : Assessment F)
        (db db' : Tables F)
        → a.transaction_id ≡ e.transaction_id
        → Created p e evaluate a db db'
        → get_assessment p e.transaction_id db' ≡ ok (as_stored a)
    get_assessment-Created e evaluate a db db' own c =
        subst (λ k. get_assessment p k db' ≡ ok (as_stored a)) own
          (get_assessment-of_find a.transaction_id db' (assessment_row p a c.signals) (
              subst
                (λ (t : Tables F).
                  find_key assessment_key a.transaction_id t.assessments
                  ≡ some (assessment_row p a c.signals))
                c.after
                (found_at_end db.assessments (assessment_row p a c.signals) c.new_assessment))
            ∙ read_assessment-row a c.signals c.encoded_signals)

module _ {F : Type 0} (p : Platform F) where
  -- An assessment that is stored is not changed by what a later call leaves.
  get_assessment-append :
      (k : String) (db db' : Tables F) (new : List (AssessmentRow F)) (s : Assessment F)
      → db'.assessments ≡ db.assessments ++ new
      → get_assessment p k db ≡ ok s
      → get_assessment p k db' ≡ ok s
  get_assessment-append k db db' new s more h =
      elim (Option-cases (find_key assessment_key k db.assessments)) [
        | inl missing ↦ absurd (ground (arith, get_assessment-of_missing p k db missing, h))
        | inr (r, found) ↦
            get_assessment-of_find p k db' r
              (rw more (find_key-append_some assessment_key k db.assessments new r found))
            ∙ sym (get_assessment-of_find p k db r found)
            ∙ h
      ]

  Effect-get_assessment :
      (e : TransactionCreated) (evaluate : History → Result (Assessment F)) (k : String)
      (db db' : Tables F) (s : Assessment F)
      → Effect p e evaluate db db'
      → get_assessment p k db ≡ ok s
      → get_assessment p k db' ≡ ok s
  Effect-get_assessment e evaluate k db db' s (undone n _ same) h =
      get_assessment-append k db db' [] s
        (ap (λ (t : Tables F). t.assessments) (sym same) ∙ sym (append-nil db.assessments)) h
  Effect-get_assessment e evaluate k db db' s (stored a c) h =
      get_assessment-append k db db' (assessment_row p a c.signals ∷ []) s
        (ap (λ (t : Tables F). t.assessments) (sym c.after)) h

module _ {F : Type 0} ⦃f : Float64 F⦄ (p : Platform F) where
  -- Whatever fails, no later call changes an assessment that is stored.
  pub get_assessment-evaluate_event :
      (faults : Faults) (e : TransactionCreated) (evaluate : History → Result (Assessment F))
      (k : String) (db : Tables F) (s : Assessment F)
      → get_assessment p k db ≡ ok s
      → get_assessment p k (evaluate_event p faults e evaluate db).1 ≡ ok s
  get_assessment-evaluate_event faults e evaluate k db s h =
      Effect-get_assessment p e evaluate k db (evaluate_event p faults e evaluate db).1 s
        (evaluate_event-Effect p faults e evaluate db) h

  -- A call for a transaction whose assessment is stored returns it, does not run the evaluator, and
  -- changes nothing.
  pub evaluate_event-seen :
      (e : TransactionCreated) (evaluate : History → Result (Assessment F)) (raw : Bytes)
      (s : Assessment F) (db : Tables F)
      → p.encode_transaction e ≡ ok raw
      → has_key transaction_key e.transaction_id db.transactions ≡ true
      → get_assessment p e.transaction_id db ≡ ok s
      → evaluate_event p no_faults e evaluate db ≡ (ok (s, false), db)
  unfolding evaluate_event in_transaction end_transaction body encode_event record_event duplicate
      load_duplicate insert_transaction
  evaluate_event-seen e evaluate raw s db encoded old found = ground (arith, encoded, old, found)

  module _ (laws : IsPlatform p) where
    -- Once an assessment was created under its event's transaction, whether the answer arrived or not,
    -- a call for the transaction again in which nothing fails, with whatever content that can be
    -- encoded and whatever time or model, returns the assessment stored first and changes nothing.
    pub redelivered :
        (e e' : TransactionCreated) (evaluate evaluate' : History → Result (Assessment F))
        (a : Assessment F) (raw' : Bytes) (db db' : Tables F)
        → Created p e evaluate a db db'
        → a.transaction_id ≡ e.transaction_id
        → e'.transaction_id ≡ e.transaction_id
        → p.encode_transaction e' ≡ ok raw'
        → evaluate_event p no_faults e' evaluate' db' ≡ (ok (as_stored p a, false), db')
    redelivered e e' evaluate evaluate' a raw' db db' c own same encoded =
        evaluate_event-seen e' evaluate' raw' (as_stored p a) db' encoded
          (subst (λ k. has_key transaction_key k db'.transactions ≡ true) (sym same)
            (subst
              (λ (t : Tables F). has_key transaction_key e.transaction_id t.transactions ≡ true)
              c.after
              (has_key-snoc_self transaction_key db.transactions (transaction_row p e c.raw))))
          (subst (λ k. get_assessment p k db' ≡ ok (as_stored p a)) (sym same)
            (get_assessment-Created p laws e evaluate a db db' own c))
