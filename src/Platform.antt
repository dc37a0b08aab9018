-- ===== src/Platform.antt =====
-- What the program calls and does not implement: encoding/json, and how Postgres keeps a JSON value
-- and a time and orders texts. `F` is `float64`.
use learn_go_project.Prelude.{String, Bool, false, ℕ, ◌≡◌, true, List, Option, some, ℤ}
use learn_go_project.Errors.{Result, ok, is_ok}
use learn_go_project.Domain.{TransactionCreated, FraudLabel, Signal, Assessment, Time}

abbrev pub Bytes : Type 0
Bytes = List ℕ

pub record Platform (F : Type 0) : Type 0 where
  -- json.Unmarshal and json.Marshal, at the types that the code gives them
  pub decode_transaction : Bytes → Result TransactionCreated
  pub encode_transaction : TransactionCreated → Result Bytes
  pub decode_label : Bytes → Result FraudLabel
  pub encode_signals : List (Signal F) → Result Bytes
  pub decode_signals : Bytes → Result (List (Signal F))
  pub encode_assessment : Assessment F → Result Bytes
  -- (raw_event->>'amount_minor')::bigint, where a NULL is `none`
  pub amount_minor : Bytes → Option ℤ
  -- a time as a timestamptz column holds it, in microseconds, and as it is read back
  pub timestamptz : Time → ℤ
  pub from_timestamptz : ℤ → Time
  -- `<` on text columns, in the collation of the database
  pub text_lt : String → String → Bool

-- The documented behaviour that proofs rest on.
pub record IsPlatform {F : Type 0} (p : Platform F) : Type 0 where
  -- an event that was decoded can be encoded, and its amount is read off the stored JSON
  pub encodes_events :
      (raw : Bytes) (t : TransactionCreated)
      → p.decode_transaction raw ≡ ok t
      → is_ok (p.encode_transaction t) ≡ true
  pub keeps_amount :
      (t : TransactionCreated) (raw : Bytes)
      → p.encode_transaction t ≡ ok raw
      → p.amount_minor raw ≡ some t.amount_minor
  -- signals come back from storage as they were written
  pub keeps_signals :
      (s : List (Signal F)) (raw : Bytes)
      → p.encode_signals s ≡ ok raw
      → p.decode_signals raw ≡ ok s
  -- an event comes back from its JSON as it was encoded, and so does a microsecond of a column
  pub keeps_events :
      (t : TransactionCreated) (raw : Bytes)
      → p.encode_transaction t ≡ ok raw
      → p.decode_transaction raw ≡ ok t
  pub keeps_times : (n : ℤ) → p.timestamptz (p.from_timestamptz n) ≡ n
  -- the collation is a strict total order
  pub text_irrefl : (s : String) → p.text_lt s s ≡ false
  pub text_trans :
      (s t u : String) → p.text_lt s t ≡ true → p.text_lt t u ≡ true → p.text_lt s u ≡ true
  pub text_total : (s t : String) → p.text_lt s t ≡ false → p.text_lt t s ≡ false → s ≡ t
