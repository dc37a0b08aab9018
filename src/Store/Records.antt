-- ===== src/Store/Records.antt =====
-- The joined rows of a transaction, `scanRecord`, which reads one, and `GetTransaction`, of
-- internal/store/postgres.go.
pub mod Lookup
use learn_go_project.Prelude.{String, ◌==◌, Option, none, some, List, [], ◌∷◌, ◌++◌, map, keep}
use learn_go_project.Errors.{Error, no_rows, Result, ok, err, with_prefix, ◌>>=◌}
use learn_go_project.Domain.{
  TransactionCreated, FraudLabel, Signal, Assessment, TransactionRecord, Time, schema_version,
}
use learn_go_project.Platform.{Platform}
use learn_go_project.Store.Tables.{TransactionRow, AssessmentRow, LabelRow, Tables}
use learn_go_project.Store.Metrics.{Joined, left_join}

-- a row of transactions JOIN assessments LEFT JOIN fraud_labels
pub record JoinedRow (F : Type 0) : Type 0 where
  pub transaction : TransactionRow
  pub assessment : AssessmentRow F
  pub label : Option LabelRow

-- `cursor`
pub record Cursor : Type 0 where
  pub occurred_at : Time
  pub transaction_id : String

module _ {F : Type 0} where
  abbrev pub row_id : JoinedRow F → String
  row_id r = r.transaction.transaction_id

  abbrev pub joined_id : Joined F → String
  joined_id j = j.0.transaction_id

  abbrev pub joined_row : TransactionRow → Joined F → JoinedRow F
  joined_row t j = record { transaction = t; assessment = j.0; label = j.1 }

  -- JOIN assessments USING (transaction_id) LEFT JOIN fraud_labels USING (transaction_id)
  unfoldable pub join_rows : List (Joined F) → List TransactionRow → List (JoinedRow F)
  join_rows js [] = []
  join_rows js (t ∷ ts) =
      map (joined_row t) (keep (λ j. joined_id j == t.transaction_id) js) ++ join_rows js ts

  abbrev pub joined_rows : Tables F → List (JoinedRow F)
  joined_rows db = join_rows (left_join db.labels db.assessments) db.transactions

module _ {F : Type 0} (p : Platform F) where
  -- the label of a record, if its columns are not NULL
  unfoldable pub scan_label : TransactionCreated → Option LabelRow → Option FraudLabel
  scan_label t none = none
  scan_label t (some l) = some (record {
    schema_version = schema_version;
    event_id = l.event_id;
    transaction_id = t.transaction_id;
    labelled_at = p.from_timestamptz l.labelled_at;
    is_fraud = l.is_fraud;
    fraud_type = l.fraud_type;
  })

  unfoldable pub scanned_assessment :
      TransactionCreated → AssessmentRow F → List (Signal F) → Assessment F
  scanned_assessment t a signals = record {
    schema_version = schema_version;
    event_id = a.event_id;
    transaction_id = t.transaction_id;
    assessed_at = p.from_timestamptz a.assessed_at;
    model_version = a.model_version;
    risk_score = a.risk_score;
    recommended_action = a.recommended_action;
    signals = signals;
  }

  -- `scanRecord`, behind the Scan of the columns
  unfoldable pub scan_record : JoinedRow F → Result (TransactionRecord F × Cursor)
  unfolding scan_label scanned_assessment
  scan_record r = do
    t ← with_prefix "decode stored transaction" (p.decode_transaction r.transaction.raw_event)
    signals ← with_prefix "decode stored signals" (p.decode_signals r.assessment.signals)
    ok (
      record {
        transaction = t;
        assessment = scanned_assessment t r.assessment signals;
        label = scan_label t r.label;
      },
      record {
        occurred_at = p.from_timestamptz r.transaction.occurred_at;
        transaction_id = r.transaction.transaction_id;
      },
    )

  -- The first row of a result, which QueryRow reads.
  unfoldable pub scan_first : List (JoinedRow F) → Result (TransactionRecord F)
  unfolding scan_record
  scan_first [] = err no_rows
  scan_first (r ∷ rows) = scan_record r >>= λ s. ok s.0

  -- `GetTransaction`, with the error of the query, if any
  unfoldable pub get_transaction : Option Error → String → Tables F → Result (TransactionRecord F)
  unfolding scan_first
  get_transaction (some e) id db = err e
  get_transaction none id db = scan_first (keep (λ r. row_id r == id) (joined_rows db))
