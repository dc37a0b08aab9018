-- ===== src/Domain.antt =====
-- internal/domain/domain.go: the events, their validation, and the assessment of a transaction.
--
-- Go's strings are native texts; `len` is their number of UTF-8 bytes. An `int64` is an integer, a
-- `time.Time` the integer number of nanoseconds since Go's zero time, so `IsZero` is a comparison
-- with 0. A `float64` is a type `F`, see `Float`.
pub mod Validation
use learn_go_project.Prelude.{
  ℕ, String, len, ◌≡◌, Bool, true, false, not, ◌&&◌, ◌||◌, ◌==◌, List, Option, ℤ, pos, eqb, leb_ℤ,
  eqb_ℤ, arith, if◌then◌else◌,
}
use learn_go_project.Errors.{
  Error, text, unsupported_schema_version, unsupported_currency, unsupported_entry_mode, Result, ok,
  err, ◌>>=◌, ◌>>◌, refuse_if,
}

abbrev pub schema_version : ℤ
schema_version = pos 1

abbrev pub entry_mode_chip : String
entry_mode_chip = "chip"

abbrev pub entry_mode_contactless : String
entry_mode_contactless = "contactless"

abbrev pub entry_mode_ecommerce : String
entry_mode_ecommerce = "ecommerce"

abbrev pub action_none : String
action_none = "no_action"

abbrev pub action_review : String
action_review = "review"

abbrev pub action_escalate : String
action_escalate = "escalate"

abbrev pub Time : Type 0
Time = ℤ

pub record Merchant : Type 0 where
  pub id : String
  pub category : String
  pub country : String

pub record TransactionCreated : Type 0 where
  pub schema_version : ℤ
  pub event_id : String
  pub transaction_id : String
  pub occurred_at : Time
  pub account_id : String
  pub card_id : String
  pub amount_minor : ℤ
  pub currency : String
  pub merchant : Merchant
  pub entry_mode : String

abbrev is_empty : String → Bool
is_empty s = s == ""

abbrev is_zero : Time → Bool
is_zero t = eqb_ℤ t (pos 0)

-- the `switch` on the entry mode
unfoldable pub known_entry_mode : String → Bool
known_entry_mode m =
    m == entry_mode_chip || m == entry_mode_contactless || m == entry_mode_ecommerce

-- The conditions of `Validate`, one for each `if`.
unfoldable pub missing_ids : TransactionCreated → Bool
missing_ids t =
    is_empty t.event_id || is_empty t.transaction_id || is_empty t.account_id || is_empty t.card_id

unfoldable pub missing_merchant : TransactionCreated → Bool
missing_merchant t =
    is_empty t.merchant.id || is_empty t.merchant.category || not (eqb (len t.merchant.country) 2)

-- `TransactionCreated.Validate`
unfoldable pub validate : TransactionCreated → Result (Unit {0})
validate t = do
  refuse_if (not (eqb_ℤ t.schema_version (pos 1))) (unsupported_schema_version t.schema_version)
  refuse_if (missing_ids t) (text "event, transaction, account, and card IDs are required")
  refuse_if (is_zero t.occurred_at) (text "occurred_at is required")
  refuse_if (leb_ℤ t.amount_minor (pos 0)) (text "amount_minor must be positive")
  refuse_if (not (t.currency == "GBP")) (unsupported_currency t.currency)
  refuse_if (missing_merchant t) (text "merchant id, category, and ISO country are required")
  refuse_if (not (known_entry_mode t.entry_mode)) (unsupported_entry_mode t.entry_mode)

pub record FraudLabel : Type 0 where
  pub schema_version : ℤ
  pub event_id : String
  pub transaction_id : String
  pub labelled_at : Time
  pub is_fraud : Bool
  pub fraud_type : String

-- `FraudLabel.Validate`
unfoldable pub validate_label : FraudLabel → Result (Unit {0})
validate_label l = do
  refuse_if (not (eqb_ℤ l.schema_version (pos 1))) (unsupported_schema_version l.schema_version)
  refuse_if (is_empty l.event_id || is_empty l.transaction_id || is_zero l.labelled_at)
      (text "event_id, transaction_id, and labelled_at are required")
  refuse_if (l.is_fraud && is_empty l.fraud_type) (text "fraud_type is required for fraud labels")

-- What the database knows of an account before a transaction.
pub record History : Type 0 where
  pub transaction_count_10m : ℤ
  pub spend_minor_1h : ℤ
  pub seen_merchant : Bool
  pub seen_country : Bool

-- The zero value of Go's `History{}`.
abbrev pub empty_history : History
empty_history = record {
  transaction_count_10m = pos 0;
  spend_minor_1h = pos 0;
  seen_merchant = false;
  seen_country = false;
}

abbrev pub FeatureVector : Type 0 → Type 0
FeatureVector F = List (String × F)

pub record Signal (F : Type 0) : Type 0 where
  pub feature : String
  pub value : F
  pub contribution : F

pub record Assessment (F : Type 0) : Type 0 where
  pub schema_version : ℤ
  pub event_id : String
  pub transaction_id : String
  pub assessed_at : Time
  pub model_version : String
  pub risk_score : F
  pub recommended_action : String
  pub signals : List (Signal F)

pub record TransactionRecord (F : Type 0) : Type 0 where
  pub transaction : TransactionCreated
  pub assessment : Assessment F
  pub label : Option FraudLabel
