-- ===== src/Store/Evaluate.antt =====
-- `Postgres.Evaluate` of internal/store/postgres.go: an event is recorded, scored against the
-- account's history, and queued for publication in one database transaction.
pub mod Outcome
pub mod Atomic
pub mod Progress
use learn_go_project.Prelude.{
  ℕ, String, Bool, true, false, Option, none, some, find_key, eqb, if◌then◌else◌,
}
use learn_go_project.Errors.{Error, no_rows, unprocessable_event, wrap, Result, ok, err, is_no_rows}
use learn_go_project.Exec.{
  Exec, Commit, committed, aborted, unanswered, ◌>>=◌, ◌>>◌, pure, lift, call, map_error,
}
use learn_go_project.Float.{Float64}
use learn_go_project.Domain.{TransactionCreated, History, Assessment, schema_version}
use learn_go_project.Platform.{Platform, Bytes}
use learn_go_project.Store.History.{Subject, select_history}
use learn_go_project.Store.Tables.{
  TransactionRow, AssessmentRow, Tables, assessment_key, unprocessable, insert_transaction,
  insert_assessment, insert_outbox, roll_back,
}

-- How each call of `Evaluate` on the database fails, if it does, for a reason other than the
-- constraints of the tables.
pub record Faults : Type 0 where
  pub begin : Option Error
  pub insert : Option Error
  pub select : Option Error
  pub history : Option Error
  pub assess : Option Error
  pub enqueue : Option Error
  pub commit : Commit

abbrev pub no_faults : Faults
no_faults = record {
  begin = none;
  insert = none;
  select = none;
  history = none;
  assess = none;
  enqueue = none;
  commit = committed;
}

module _ {F : Type 0} (p : Platform F) where
  -- The row of an event, around its encoded JSON.
  abbrev pub transaction_row : TransactionCreated → Bytes → TransactionRow
  transaction_row e raw = record {
    transaction_id = e.transaction_id;
    event_id = e.event_id;
    account_id = e.account_id;
    occurred_at = p.timestamptz e.occurred_at;
    merchant_id = e.merchant.id;
    merchant_country = e.merchant.country;
    raw_event = raw;
  }

  abbrev pub assessment_row : Assessment F → Bytes → AssessmentRow F
  assessment_row a signals = record {
    transaction_id = a.transaction_id;
    event_id = a.event_id;
    assessed_at = p.timestamptz a.assessed_at;
    model_version = a.model_version;
    risk_score = a.risk_score;
    recommended_action = a.recommended_action;
    signals = signals;
  }

  abbrev pub subject : TransactionCreated → Subject
  subject e = record {
    account = e.account_id;
    at = p.timestamptz e.occurred_at;
    merchant = e.merchant.id;
    country = e.merchant.country;
  }

  -- The second half of `getAssessment`: the signals are decoded, and the schema version, which is
  -- not stored, is filled in.
  unfoldable pub read_assessment : AssessmentRow F → Result (Assessment F)
  read_assessment r = elim (p.decode_signals r.signals) [
    | ok signals ↦ ok (record {
      schema_version = schema_version;
      event_id = r.event_id;
      transaction_id = r.transaction_id;
      assessed_at = p.from_timestamptz r.assessed_at;
      model_version = r.model_version;
      risk_score = r.risk_score;
      recommended_action = r.recommended_action;
      signals = signals;
    })
    | err e ↦ err e
  ]

  -- `getAssessment`
  unfoldable pub get_assessment : String → Tables F → Result (Assessment F)
  get_assessment id db = elim (find_key assessment_key id db.assessments) [
    | none ↦ err no_rows
    | some r ↦ read_assessment r
  ]

  -- What `Evaluate` makes of an error of `getAssessment`.
  unfoldable pub missing : Error → Error
  missing e =
      if is_no_rows e
      then wrap "transaction has no assessment" unprocessable_event
      else wrap "load duplicate assessment" e

module _ {F : Type 0} (p : Platform F) (faults : Faults) (event : TransactionCreated) where
  -- json.Marshal(event)
  unfoldable pub encode_event : Exec (Tables F) Bytes
  encode_event = map_error (wrap "encode transaction event") (lift (p.encode_transaction event))

  -- INSERT INTO transactions, and the number of rows affected
  unfoldable pub record_event : Bytes → Exec (Tables F) ℕ
  record_event raw =
      map_error (λ e. wrap "insert transaction" (unprocessable e))
        (call faults.insert (insert_transaction (transaction_row p event raw)))

  unfoldable pub load_duplicate : Exec (Tables F) (Assessment F)
  load_duplicate =
      map_error (missing p)
        (call faults.select λ db. (get_assessment p event.transaction_id db, db))

  -- the SELECT of the aggregates, which sees the row just inserted
  unfoldable pub load_history : Exec (Tables F) History
  load_history = map_error (wrap "load transaction history") (
      call faults.history
        λ db. (select_history p.amount_minor (subject p event) db.transactions, db))

  unfoldable pub score :
      (History → Result (Assessment F)) → History → Exec (Tables F) (Assessment F)
  score evaluate history = map_error (wrap "evaluate transaction") (lift (evaluate history))

  -- json.Marshal(assessment.Signals) and json.Marshal(assessment)
  unfoldable pub encode_signals : Assessment F → Exec (Tables F) Bytes
  encode_signals a =
      map_error (wrap "encode assessment signals") (lift (p.encode_signals a.signals))

  unfoldable pub encode_payload : Assessment F → Exec (Tables F) Bytes
  encode_payload a = map_error (wrap "encode assessment event") (lift (p.encode_assessment a))

  -- INSERT INTO outbox
  unfoldable pub enqueue : Assessment F → Bytes → Exec (Tables F) (Unit {0})
  enqueue a payload =
      map_error (λ e. wrap "insert outbox event" (unprocessable e))
        (call faults.enqueue
          (insert_outbox a.event_id "fraud.assessments.v1" a.transaction_id payload))

module _ {F : Type 0} ⦃f : Float64 F⦄ (p : Platform F) (faults : Faults)
    (event : TransactionCreated) where
  -- INSERT INTO assessments
  unfoldable pub store_assessment : Assessment F → Bytes → Exec (Tables F) (Unit {0})
  store_assessment a signals =
      map_error (λ e. wrap "insert assessment" (unprocessable e))
        (call faults.assess (insert_assessment (assessment_row p a signals)))

  -- one row affected: the event is new, and it is scored
  unfoldable pub fresh : (History → Result (Assessment F)) → Exec (Tables F) (Assessment F × Bool)
  fresh evaluate = do
    history ← load_history p faults event
    assessment ← score p faults event evaluate history
    signals ← encode_signals p faults event assessment
    store_assessment assessment signals
    payload ← encode_payload p faults event assessment
    enqueue p faults event assessment payload
    pure (assessment, true)

  -- zero rows affected: the event was seen before
  unfoldable pub duplicate : Exec (Tables F) (Assessment F × Bool)
  duplicate = do assessment ← load_duplicate p faults event; pure (assessment, false)

  abbrev pub branch : ℕ → (History → Result (Assessment F)) → Exec (Tables F) (Assessment F × Bool)
  branch affected evaluate = if eqb affected 0 then duplicate else fresh evaluate

  -- everything between BEGIN and COMMIT
  unfoldable pub body : (History → Result (Assessment F)) → Exec (Tables F) (Assessment F × Bool)
  body evaluate = do
    raw ← encode_event p faults event
    affected ← record_event p faults event raw
    branch affected evaluate

-- The message of a failed commit says which of the two it was.
abbrev pub commit_message : Bool → String
commit_message true = "commit assessment"
commit_message false = "commit duplicate lookup"

module _ {F : Type 0} where
  -- COMMIT, and the deferred rollback on every way out that did not reach it
  unfoldable pub end_transaction :
      Commit
      → Tables F
      → Result (Assessment F × Bool) × Tables F
      → Result (Assessment F × Bool) × Tables F
  end_transaction c before (err e, after) = (err e, roll_back before after)
  end_transaction committed before (ok r, after) = (ok r, after)
  end_transaction (aborted e) before (ok r, after) =
      (err (wrap (commit_message r.1) e), roll_back before after)
  end_transaction (unanswered e) before (ok r, after) = (err (wrap (commit_message r.1) e), after)

  -- BEGIN, which may fail, the work, and the end
  unfoldable pub in_transaction :
      Option Error
      → Commit
      → Exec (Tables F) (Assessment F × Bool)
      → Exec (Tables F) (Assessment F × Bool)
  in_transaction (some e) c work db = (err (wrap "begin transaction" e), db)
  in_transaction none c work db = end_transaction c db (work db)

module _ {F : Type 0} ⦃f : Float64 F⦄ (p : Platform F) (faults : Faults)
    (event : TransactionCreated) where
  -- `Evaluate`: the assessment, and whether this call created it
  unfoldable pub evaluate_event :
      (History → Result (Assessment F)) → Exec (Tables F) (Assessment F × Bool)
  evaluate_event evaluate = in_transaction faults.begin faults.commit (body p faults event evaluate)
