-- ===== src/Store/Tables/Inserts.antt =====
-- What an INSERT that succeeded did.
use learn_go_project.Prelude.{ℕ, String, ◌≡◌, ◌⊎◌, true, false, has_key, pos, arith}
use learn_go_project.Errors.{ok}
use learn_go_project.Float.{Float64}
use learn_go_project.Platform.{Bytes}
use learn_go_project.Store.Tables.{
  TransactionRow, AssessmentRow, Tables, transaction_key, transaction_event, assessment_key,
  assessment_event, outbox_event, outbox_row, with_transaction, with_assessment, with_outbox,
  insert_transaction, insert_assessment, insert_outbox,
}

module _ {F : Type 0} where
  pub insert_transaction-ok :
      (row : TransactionRow) (db : Tables F) {n : ℕ} {db₁ : Tables F}
      → insert_transaction row db ≡ (ok n, db₁)
      → ((n ≡ 0) × (db ≡ db₁) × (has_key transaction_key row.transaction_id db.transactions ≡ true))
        ⊎ ((n ≡ 1)
            × (with_transaction row db ≡ db₁)
            × (has_key transaction_key row.transaction_id db.transactions ≡ false)
            × (has_key transaction_event row.event_id db.transactions ≡ false))
  unfolding insert_transaction
  insert_transaction-ok row db h = ground arith

  pub insert_outbox-ok :
      (event_id topic key : String) (payload : Bytes) (db : Tables F) {r : Unit {0}}
      {db₁ : Tables F}
      → insert_outbox event_id topic key payload db ≡ (ok r, db₁)
      → (with_outbox (outbox_row db.next_id event_id topic key payload) db ≡ db₁)
        × (has_key outbox_event event_id db.outbox ≡ false)
  unfolding insert_outbox
  insert_outbox-ok event_id topic key payload db h = ground arith

module _ {F : Type 0} ⦃f : Float64 F⦄ where
  pub insert_assessment-ok :
      (row : AssessmentRow F) (db : Tables F) {r : Unit {0}} {db₁ : Tables F}
      → insert_assessment row db ≡ (ok r, db₁)
      → (with_assessment row db ≡ db₁)
        × (has_key assessment_key row.transaction_id db.assessments ≡ false)
        × (has_key assessment_event row.event_id db.assessments ≡ false)
        × (f.le (f.of_int (pos 0)) row.risk_score ≡ true)
        × (f.le row.risk_score (f.of_int (pos 1)) ≡ true)
  unfolding insert_assessment
  insert_assessment-ok row db h = ground arith
