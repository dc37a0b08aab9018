-- ===== src/Domain/Validation.antt =====
-- What the two `Validate` methods of internal/domain/domain.go accept.
use learn_go_project.Prelude.{
  len, ◌≡◌, ◌≢◌, ◌⊎◌, ◌↔◌, true, false, eq_iff, pos, ◌<ℤ◌, eqb_ℤ, leb_ℤ, arith, ◌==◌,
}
use learn_go_project.Errors.{ok}
use learn_go_project.Domain.{
  TransactionCreated, FraudLabel, missing_ids, missing_merchant, known_entry_mode, validate,
  validate_label,
}

-- The contract of a transaction event.
pub record IsValid (t : TransactionCreated) : Type 0 where
  pub version : t.schema_version ≡ pos 1
  pub event : t.event_id ≢ ""
  pub transaction : t.transaction_id ≢ ""
  pub account : t.account_id ≢ ""
  pub card : t.card_id ≢ ""
  pub time : t.occurred_at ≢ pos 0
  pub amount : pos 0 <ℤ t.amount_minor
  pub currency : t.currency ≡ "GBP"
  pub merchant_id : t.merchant.id ≢ ""
  pub category : t.merchant.category ≢ ""
  pub country : len t.merchant.country ≡ 2
  pub entry_mode :
      (t.entry_mode ≡ "chip") ⊎ (t.entry_mode ≡ "contactless") ⊎ (t.entry_mode ≡ "ecommerce")

-- The outcomes of the seven tests for a transaction that passes.
record Passes (t : TransactionCreated) : Type 0 where
  version : eqb_ℤ t.schema_version (pos 1) ≡ true
  ids : missing_ids t ≡ false
  time : eqb_ℤ t.occurred_at (pos 0) ≡ false
  amount : leb_ℤ t.amount_minor (pos 0) ≡ false
  currency : (t.currency == "GBP") ≡ true
  merchant : missing_merchant t ≡ false
  mode : known_entry_mode t.entry_mode ≡ true

module _ (t : TransactionCreated) where
  Passes-of_ok : validate t ≡ ok tt → Passes t
  unfolding validate
  Passes-of_ok h = ground arith

  ok-of_Passes : Passes t → validate t ≡ ok tt
  unfolding validate
  ok-of_Passes h = ground arith

  present_ids :
      (missing_ids t ≡ false)
      ↔ ((t.event_id ≢ "") × (t.transaction_id ≢ "") × (t.account_id ≢ "") × (t.card_id ≢ ""))
  unfolding missing_ids
  present_ids = ground (
    arith,
    eq_iff t.event_id "",
    eq_iff t.transaction_id "",
    eq_iff t.account_id "",
    eq_iff t.card_id "",
  )

  present_merchant :
      (missing_merchant t ≡ false)
      ↔ ((t.merchant.id ≢ "") × (t.merchant.category ≢ "") × (len t.merchant.country ≡ 2))
  unfolding missing_merchant
  present_merchant = ground (arith, eq_iff t.merchant.id "", eq_iff t.merchant.category "")

  known_modes :
      (known_entry_mode t.entry_mode ≡ true)
      ↔ ((t.entry_mode ≡ "chip") ⊎ (t.entry_mode ≡ "contactless") ⊎ (t.entry_mode ≡ "ecommerce"))
  unfolding known_entry_mode
  known_modes = ground (
    arith,
    eq_iff t.entry_mode "chip",
    eq_iff t.entry_mode "contactless",
    eq_iff t.entry_mode "ecommerce",
  )

  IsValid-of_Passes : Passes t → IsValid t
  IsValid-of_Passes p = ground (
    arith,
    present_ids.0 p.ids,
    present_merchant.0 p.merchant,
    known_modes.0 p.mode,
    eq_iff t.currency "GBP",
  )

  Passes-of_IsValid : IsValid t → Passes t
  Passes-of_IsValid v = record {
    version = ground arith;
    ids = present_ids.1 (v.event, v.transaction, v.account, v.card);
    time = ground arith;
    amount = ground arith;
    currency = (eq_iff t.currency "GBP").1 v.currency;
    merchant = present_merchant.1 (v.merchant_id, v.category, v.country);
    mode = known_modes.1 v.entry_mode;
  }

-- `validate` accepts a transaction exactly if it meets the contract: schema version 1, no empty
-- event, transaction, account or card id, a time that is not the zero time, a positive amount in
-- GBP, a merchant with an id, a category and a country of two bytes, and a known entry mode.
pub validate-ok_iff : (t : TransactionCreated) → (validate t ≡ ok tt) ↔ IsValid t
validate-ok_iff t =
    (λ h. IsValid-of_Passes t (Passes-of_ok t h), λ v. ok-of_Passes t (Passes-of_IsValid t v))

-- The contract of a fraud label.
pub record IsValidLabel (l : FraudLabel) : Type 0 where
  pub version : l.schema_version ≡ pos 1
  pub event : l.event_id ≢ ""
  pub transaction : l.transaction_id ≢ ""
  pub time : l.labelled_at ≢ pos 0
  pub kind : l.is_fraud ≡ true → l.fraud_type ≢ ""

-- `validate_label` accepts a label exactly if it has schema version 1, an event and a transaction
-- id, a time that is not the zero time, and a fraud type where it says that there was fraud.
pub validate_label-ok_iff : (l : FraudLabel) → (validate_label l ≡ ok tt) ↔ IsValidLabel l
unfolding validate_label
validate_label-ok_iff l =
    ground (arith, eq_iff l.event_id "", eq_iff l.transaction_id "", eq_iff l.fraud_type "")
