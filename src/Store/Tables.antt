-- ===== src/Store/Tables.antt =====
-- The tables of internal/store/migrations/001_init.sql and the statements that write them, with
-- their constraints.
--
-- A table is the list of its rows in the order of insertion. `created_at` is left out: no statement
-- reads it. `published_at` is kept as whether it is set.
pub mod Inserts
use learn_go_project.Prelude.{
  ℕ, ◌+◌, String, Bool, true, false, not, ◌&&◌, ◌||◌, Option, none, some, List, [], ◌∷◌, ◌++◌, ℤ,
  pos, has_key, find_key, eqb, if◌then◌else◌, ◌==◌,
}
use learn_go_project.Errors.{
  Error, pg_error, unprocessable_event, wrap_both, Result, ok, err, sqlstate,
}
use learn_go_project.Exec.{Exec}
use learn_go_project.Float.{Float64}
use learn_go_project.Platform.{Bytes}

pub record TransactionRow : Type 0 where
  pub transaction_id : String
  pub event_id : String
  pub account_id : String
  pub occurred_at : ℤ
  pub merchant_id : String
  pub merchant_country : String
  pub raw_event : Bytes

pub record AssessmentRow (F : Type 0) : Type 0 where
  pub transaction_id : String
  pub event_id : String
  pub assessed_at : ℤ
  pub model_version : String
  pub risk_score : F
  pub recommended_action : String
  pub signals : Bytes

pub record LabelRow : Type 0 where
  pub transaction_id : String
  pub event_id : String
  pub labelled_at : ℤ
  pub is_fraud : Bool
  pub fraud_type : String

pub record OutboxRow : Type 0 where
  pub id : ℕ
  pub event_id : String
  pub topic : String
  pub event_key : String
  pub payload : Bytes
  pub is_published : Bool

-- `next_id` is the sequence behind `outbox.id`.
pub record Tables (F : Type 0) : Type 0 where
  pub transactions : List TransactionRow
  pub assessments : List (AssessmentRow F)
  pub labels : List LabelRow
  pub outbox : List OutboxRow
  pub next_id : ℕ

abbrev pub unique_violation : String
unique_violation = "23505"

abbrev pub foreign_key_violation : String
foreign_key_violation = "23503"

abbrev pub check_violation : String
check_violation = "23514"

-- `unprocessable`: tags a unique-key violation as one that no retry repairs.
unfoldable pub unprocessable : Error → Error
unprocessable e = elim (sqlstate e) [
  | some code ↦ if code == unique_violation then wrap_both unprocessable_event e else e
  | none ↦ e
]

-- The columns that a key constraint or a keyed SELECT goes by.
abbrev pub transaction_key : TransactionRow → String
transaction_key r = r.transaction_id

abbrev pub transaction_event : TransactionRow → String
transaction_event r = r.event_id

abbrev pub label_key : LabelRow → String
label_key r = r.transaction_id

abbrev pub label_event : LabelRow → String
label_event r = r.event_id

abbrev pub outbox_key : OutboxRow → String
outbox_key r = r.event_key

abbrev pub outbox_event : OutboxRow → String
outbox_event r = r.event_id

-- The columns that an INSERT INTO outbox names, and the defaults of the others.
abbrev pub outbox_row : ℕ → String → String → String → Bytes → OutboxRow
outbox_row id event_id topic key payload = record {
  id = id;
  event_id = event_id;
  topic = topic;
  event_key = key;
  payload = payload;
  is_published = false;
}

module _ {F : Type 0} where
  abbrev pub assessment_key : AssessmentRow F → String
  assessment_key r = r.transaction_id

  abbrev pub assessment_event : AssessmentRow F → String
  assessment_event r = r.event_id

  abbrev pub no_tables : Tables F
  no_tables = record { transactions = []; assessments = []; labels = []; outbox = []; next_id = 1 }

  -- The tables with a row more.
  abbrev pub with_transaction : TransactionRow → Tables F → Tables F
  with_transaction row db = record db { transactions = db.transactions ++ row ∷ [] }

  abbrev pub with_assessment : AssessmentRow F → Tables F → Tables F
  with_assessment row db = record db { assessments = db.assessments ++ row ∷ [] }

  abbrev pub with_label : LabelRow → Tables F → Tables F
  with_label row db = record db { labels = db.labels ++ row ∷ [] }

  abbrev pub with_outbox : OutboxRow → Tables F → Tables F
  with_outbox row db = record db { outbox = db.outbox ++ row ∷ []; next_id = db.next_id + 1 }

  -- INSERT INTO transactions … ON CONFLICT (transaction_id) DO NOTHING; the rows affected.
  unfoldable pub insert_transaction : TransactionRow → Exec (Tables F) ℕ
  insert_transaction row db =
      if has_key transaction_key row.transaction_id db.transactions
      then (ok 0, db)
      else if has_key transaction_event row.event_id db.transactions
      then (err (pg_error unique_violation), db)
      else (ok 1, with_transaction row db)

  -- INSERT INTO fraud_labels … ON CONFLICT (transaction_id) DO NOTHING
  unfoldable pub insert_label : LabelRow → Exec (Tables F) ℕ
  insert_label row db =
      if has_key label_key row.transaction_id db.labels
      then (ok 0, db)
      else if has_key label_event row.event_id db.labels
      then (err (pg_error unique_violation), db)
      else (ok 1, with_label row db)

  -- INSERT INTO outbox: the sequence is read before the constraint is checked, and no rollback
  -- sets it back.
  unfoldable pub insert_outbox : String → String → String → Bytes → Exec (Tables F) (Unit {0})
  insert_outbox event_id topic key payload db =
      if has_key outbox_event event_id db.outbox
      then (err (pg_error unique_violation), record db { next_id = db.next_id + 1 })
      else (ok tt, with_outbox (outbox_row db.next_id event_id topic key payload) db)

  -- A rollback restores the rows, and not the sequence.
  unfoldable pub roll_back : Tables F → Tables F → Tables F
  roll_back before after = record before { next_id = after.next_id }

-- INSERT INTO assessments: CHECK (risk_score >= 0 AND risk_score <= 1), the two keys, the reference.
module _ {F : Type 0} ⦃f : Float64 F⦄ where
  unfoldable pub insert_assessment : AssessmentRow F → Exec (Tables F) (Unit {0})
  insert_assessment row db =
      if not (f.le (f.of_int (pos 0)) row.risk_score && f.le row.risk_score (f.of_int (pos 1)))
      then (err (pg_error check_violation), db)
      else if has_key assessment_key row.transaction_id db.assessments
          || has_key assessment_event row.event_id db.assessments
      then (err (pg_error unique_violation), db)
      else if not (has_key transaction_key row.transaction_id db.transactions)
      then (err (pg_error foreign_key_violation), db)
      else (ok tt, with_assessment row db)
