-- ===== src/Tests/Listings.antt =====
-- Pages of transactions at concrete inputs.
use learn_go_project.Prelude.{
  ℕ, ◌+◌, if◌then◌else◌, ◌≤◌, ◌≡◌, refl, String, true, false, ◌==◌, Option, none, some, List, [],
  ◌∷◌, length, ℤ, pos,
}
use learn_go_project.Errors.{ok}
use learn_go_project.Float.{Whole, whole, whole_float}
use learn_go_project.Domain.{TransactionRecord, FraudLabel, schema_version}
use learn_go_project.Store.Tables.{Tables, TransactionRow, AssessmentRow, OutboxRow}
use learn_go_project.Store.Records.{Cursor}
use learn_go_project.Store.Listing.{ListFilter}
use learn_go_project.HttpApi.Handlers.{Request, list_transactions}
use learn_go_project.HttpApi.Cursor.{encode_cursor, decode_cursor, decode_cursor-encode_cursor}
use learn_go_project.HttpApi.Pages.{
  repository, no_outage, records_of, requested, list_transactions-length_le,
}
use learn_go_project.Tests.Sample.{event, platform}
use learn_go_project.Tests.Times.{wire, wire-IsWire}

abbrev transaction_row : String → ℤ → ℕ → TransactionRow
transaction_row id when n = record {
  transaction_id = id;
  event_id = id;
  account_id = "account-1";
  occurred_at = when;
  merchant_id = "merchant-1";
  merchant_country = "LT";
  raw_event = n ∷ [];
}

abbrev assessment_row : String → AssessmentRow Whole
assessment_row id = record {
  transaction_id = id;
  event_id = id;
  assessed_at = pos 9;
  model_version = "model-1";
  risk_score = whole 1;
  recommended_action = "escalate";
  signals = [];
}

abbrev outbox_row : ℕ → String → OutboxRow
outbox_row n id = record {
  id = n;
  event_id = id;
  topic = "fraud.assessments.v1";
  event_key = id;
  payload = [];
  is_published = false;
}

-- Three transactions, two of them at one time, and a label for the first.
abbrev three : Tables Whole
three = record {
  transactions =
      transaction_row "a" (pos 1) 100
      ∷ transaction_row "b" (pos 2) 200
      ∷ transaction_row "c" (pos 2) 300
      ∷ [];
  assessments =
      assessment_row "a"
      ∷ record (assessment_row "b") { recommended_action = "review" }
      ∷ assessment_row "c"
      ∷ [];
  labels =
      record {
        transaction_id = "a";
        event_id = "l";
        labelled_at = pos 5;
        is_fraud = true;
        fraud_type = "";
      }
      ∷ [];
  outbox = outbox_row 1 "a" ∷ outbox_row 2 "b" ∷ outbox_row 3 "c" ∷ [];
  next_id = 4;
}

abbrev IsOneOf : String → Type 0
IsOneOf k =
    (if "a" == k then 1 else 0) + ((if "b" == k then 1 else 0) + ((if "c" == k then 1 else 0) + 0))
    ≤ 1

abbrev label_a : FraudLabel
label_a = record {
  schema_version = schema_version;
  event_id = "l";
  transaction_id = "tx-1";
  labelled_at = pos 5_000;
  is_fraud = true;
  fraud_type = "";
}

abbrev read_row : String → ℕ → ℕ → Option FraudLabel → TransactionRecord Whole × Cursor
read_row id when n label = (
  record {
    transaction = event n;
    assessment = record {
      schema_version = schema_version;
      event_id = id;
      transaction_id = "tx-1";
      assessed_at = pos 9_000;
      model_version = "model-1";
      risk_score = whole 1;
      recommended_action = "escalate";
      signals = [];
    };
    label = label;
  },
  record { occurred_at = pos when; transaction_id = id },
)

-- What those with the action read as, the latest first.
abbrev read_two : List (TransactionRecord Whole × Cursor)
read_two = read_row "c" 2_000 300 none ∷ read_row "a" 1_000 100 (some label_a) ∷ []

abbrev one_a_page : ListFilter
one_a_page = record { limit = pos 1; action = "escalate"; before = none }

abbrev request : Request
request = record { limit = "1"; action = "escalate"; cursor = ""; model_version = ""; id = "a" }

decode_cursor-encode_cursor_example :
    decode_cursor wire (encode_cursor wire (pos 3) "a|b") ≡ ok (pos 3, "a|b")
decode_cursor-encode_cursor_example =
    decode_cursor-encode_cursor wire wire-IsWire (pos 3) "a|b" refl refl

list_transactions-length_le_example :
    (length (records_of (list_transactions wire (repository platform no_outage three) request).body)
      ≤ requested wire request)
    × (requested wire request ≤ 100)
list_transactions-length_le_example =
    list_transactions-length_le wire platform no_outage three request
