-- ===== src/Tests/Sample.antt =====
-- A platform, a processor, an event and a label to run the model on. Numbers stand for the bytes:
-- a payload is an amount, and the only signal that is encoded is that of the amount.
use learn_go_project.Prelude.{
  ℕ, ◌+◌, String, ◌≡◌, refl, sym, ap, Bool, true, false, ◌&&◌, eqb_ℤ, ◌==◌, eq_iff, Option, none,
  some, List, [], ◌∷◌, ℤ, pos, negsuc, ◌/◌, ◌*◌, if◌then◌else◌, arith,
}
use learn_go_project.Errors.{text, Result, ok, err, is_ok}
use learn_go_project.Float.{Whole, whole, whole_float}
use learn_go_project.Domain.{TransactionCreated, FraudLabel, Merchant, Signal}
use learn_go_project.Platform.{Platform, IsPlatform, Bytes}
use learn_go_project.Policy.{Thresholds}
use learn_go_project.Model.{Artifact, score}
use learn_go_project.Store.Tables.{no_tables}
use learn_go_project.Service.Metrics.{new_metrics}
use learn_go_project.Service.Processor.{Processor, World}
use learn_go_project.Tests.Collation.{text_lt, text_lt_irrefl, text_lt_trans, text_lt_total}

abbrev pub event : ℕ → TransactionCreated
event n = record {
  schema_version = pos 1;
  event_id = "event-1";
  transaction_id = "tx-1";
  occurred_at = pos 3_600_000_000_000;
  account_id = "account-1";
  card_id = "card-1";
  amount_minor = pos n;
  currency = "GBP";
  merchant = record { id = "merchant-1"; category = "crypto"; country = "LT" };
  entry_mode = "ecommerce";
}

abbrev pub fraud : FraudLabel
fraud = record {
  schema_version = pos 1;
  event_id = "label-1";
  transaction_id = "tx-1";
  labelled_at = pos 7_200_000_000_000;
  is_fraud = true;
  fraud_type = "card_not_present";
}

abbrev decode_transaction : Bytes → Result TransactionCreated
decode_transaction [] = err (text "unexpected end of JSON input")
decode_transaction (n ∷ rest) = ok (event n)

-- Only the events that `event` makes are encoded.
abbrev is_merchant : Merchant → Bool
is_merchant m = m.id == "merchant-1" && m.category == "crypto" && m.country == "LT"

abbrev is_event : TransactionCreated → Bool
is_event t =
    eqb_ℤ t.schema_version (pos 1)
    && t.event_id == "event-1"
    && t.transaction_id == "tx-1"
    && eqb_ℤ t.occurred_at (pos 3_600_000_000_000)
    && t.account_id == "account-1"
    && t.card_id == "card-1"
    && t.currency == "GBP"
    && is_merchant t.merchant
    && t.entry_mode == "ecommerce"

abbrev encode_amount : Bool → ℤ → Result Bytes
encode_amount true (pos n) = ok (n ∷ [])
encode_amount _ _ = err (text "unsupported")

abbrev amount_of : Bytes → Option ℤ
amount_of [] = none
amount_of (n ∷ rest) = some (pos n)

abbrev pub log_amount : ℕ → ℕ → Signal Whole
log_amount n m = record { feature = "log_amount"; value = whole n; contribution = whole m }

abbrev encode_signal : String → Whole → Whole → Result Bytes
encode_signal feature (some (pos n)) (some (pos m)) =
    if feature == "log_amount" then ok (n ∷ m ∷ []) else err (text "unsupported")
encode_signal feature _ _ = err (text "unsupported")

abbrev encode_signals : List (Signal Whole) → Result Bytes
encode_signals [] = ok []
encode_signals (s ∷ []) = encode_signal s.feature s.value s.contribution
encode_signals (s ∷ t ∷ rest) = err (text "unsupported")

abbrev decode_signals : Bytes → Result (List (Signal Whole))
decode_signals [] = ok []
decode_signals (n ∷ []) = err (text "unsupported")
decode_signals (n ∷ m ∷ rest) = ok (log_amount n m ∷ [])

abbrev microseconds : ℤ → ℤ
microseconds (pos n) = pos (n / 1000)
microseconds (negsuc n) = negsuc (n / 1000)

abbrev nanoseconds : ℤ → ℤ
nanoseconds (pos n) = pos (n * 1000)
nanoseconds (negsuc n) = negsuc (n * 1000 + 999)

abbrev pub platform : Platform Whole
platform = record {
  decode_transaction = decode_transaction;
  encode_transaction = λ e. encode_amount (is_event e) e.amount_minor;
  decode_label = λ raw. ok fraud;
  encode_signals = encode_signals;
  decode_signals = decode_signals;
  encode_assessment = λ a. ok [];
  amount_minor = amount_of;
  timestamptz = microseconds;
  from_timestamptz = nanoseconds;
  text_lt = text_lt;
}

keeps_signal :
    (feature : String) (value contribution : Whole) (raw : Bytes)
    → encode_signal feature value contribution ≡ ok raw
    → decode_signals raw
      ≡ ok (record { feature = feature; value = value; contribution = contribution } ∷ [])
keeps_signal feature (some (pos n)) (some (pos m)) raw h =
    ground (arith, eq_iff feature "log_amount")
keeps_signal feature (some (pos n)) (some (negsuc m)) raw h = absurd (ground arith)
keeps_signal feature (some (pos n)) none raw h = absurd (ground arith)
keeps_signal feature (some (negsuc n)) c raw h = absurd (ground arith)
keeps_signal feature none c raw h = absurd (ground arith)

encodes_events :
    (raw : Bytes) (t : TransactionCreated)
    → decode_transaction raw ≡ ok t
    → is_ok (encode_amount (is_event t) t.amount_minor) ≡ true
encodes_events [] t h = absurd (ground arith)
encodes_events (n ∷ rest) t h = sym (
    ap
      (λ (r : Result TransactionCreated). elim r [
        | ok e ↦ is_ok (encode_amount (is_event e) e.amount_minor)
        | err x ↦ true
      ])
      h)

keeps_amount :
    (b : Bool) (amount : ℤ) (raw : Bytes)
    → encode_amount b amount ≡ ok raw
    → amount_of raw ≡ some amount
keeps_amount true (pos n) raw h = ground arith
keeps_amount true (negsuc n) raw h = absurd (ground arith)
keeps_amount false amount raw h = absurd (ground arith)

eqb_ℤ-path : (a b : ℤ) → eqb_ℤ a b ≡ true → a ≡ b
eqb_ℤ-path a b h = ground (arith, h)

is_merchant-path :
    (m : Merchant)
    → is_merchant m ≡ true
    → m ≡ record { id = "merchant-1"; category = "crypto"; country = "LT" }
is_merchant-path m h =
    ground (arith, h, eq_iff m.id "merchant-1", eq_iff m.category "crypto", eq_iff m.country "LT")

keeps_event :
    (t : TransactionCreated) (n : ℕ) → is_event t ≡ true → t.amount_minor ≡ pos n → event n ≡ t
keeps_event t n h amount = ground (
  arith,
  h,
  amount,
  eq_iff t.event_id "event-1",
  eq_iff t.transaction_id "tx-1",
  eq_iff t.account_id "account-1",
  eq_iff t.card_id "card-1",
  eq_iff t.currency "GBP",
  eq_iff t.entry_mode "ecommerce",
  is_merchant-path t.merchant,
  eqb_ℤ-path t.schema_version (pos 1),
  eqb_ℤ-path t.occurred_at (pos 3_600_000_000_000),
)

keeps_events :
    (t : TransactionCreated) (b : Bool) (amount : ℤ) (raw : Bytes)
    → is_event t ≡ b
    → t.amount_minor ≡ amount
    → encode_amount b amount ≡ ok raw
    → decode_transaction raw ≡ ok t
keeps_events t true (pos n) [] same e h = absurd (ground arith)
keeps_events t true (pos n) (m ∷ rest) same e h = ap ok (keeps_event t m same (ground arith))
keeps_events t true (negsuc n) raw same e h = absurd (ground arith)
keeps_events t false amount raw same e h = absurd (ground arith)

keeps_times : (n : ℤ) → microseconds (nanoseconds n) ≡ n
keeps_times (pos n) = ap pos (omega arith)
keeps_times (negsuc n) = ap negsuc (omega arith)

keeps_signals :
    (s : List (Signal Whole)) (raw : Bytes) → encode_signals s ≡ ok raw → decode_signals raw ≡ ok s
keeps_signals [] raw h = ground arith
keeps_signals (s ∷ []) raw h = keeps_signal s.feature s.value s.contribution raw h
keeps_signals (s ∷ t ∷ rest) raw h = absurd (ground arith)

pub platform-IsPlatform : IsPlatform platform
platform-IsPlatform = record {
  encodes_events = encodes_events;
  keeps_amount = λ t. keeps_amount (is_event t) t.amount_minor;
  keeps_signals = keeps_signals;
  keeps_events = λ t raw. keeps_events t (is_event t) t.amount_minor raw refl refl;
  keeps_times = keeps_times;
  text_irrefl = text_lt_irrefl;
  text_trans = text_lt_trans;
  text_total = text_lt_total;
}

-- A model of one weight, and thresholds in order.
abbrev pub artifact : Artifact Whole
artifact = record {
  version = "model-1";
  intercept = whole 0;
  weights = ("log_amount", whole 1) ∷ [];
}

abbrev pub thresholds : Thresholds Whole
thresholds = record { review = whole 0; escalate = whole 1 }

abbrev pub processor : Processor Whole
processor = record {
  platform = platform;
  scorer = record { version = "model-1"; score = score artifact };
  policy = thresholds;
}

abbrev pub start : World Whole
start = record { tables = no_tables; metrics = new_metrics }
