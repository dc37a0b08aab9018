-- ===== src/Store/History.antt =====
-- The query of `Postgres.Evaluate` for the history of an account: an aggregate over the rows of the
-- account in the last 90 days, the row of the event itself among them.
--
-- Times are the microseconds of the timestamptz column. A day is 24 hours, as in a session whose
-- time zone is UTC.
pub mod Window
use learn_go_project.Prelude.{
  ℕ, String, Bool, ◌&&◌, ◌||◌, Option, none, some, List, [], ◌∷◌, map, ℤ, pos, negsuc, ◌+ℤ◌, ◌-ℤ◌,
  leb_ℤ, ltb_ℤ, keep, length, if◌then◌else◌, ◌==◌,
}
use learn_go_project.Errors.{text, Result, ok, err, ◌>>=◌}
use learn_go_project.Domain.{History}
use learn_go_project.Platform.{Platform, Bytes}
use learn_go_project.Store.Tables.{TransactionRow}

-- microseconds
abbrev pub ten_minutes : ℕ
ten_minutes = 600_000_000

abbrev pub one_hour : ℕ
one_hour = 3_600_000_000

abbrev pub ninety_days : ℕ
ninety_days = 7_776_000_000_000

-- occurred_at >= $2 - interval AND occurred_at < $2
unfoldable pub in_window : ℤ → ℕ → TransactionRow → Bool
in_window at interval r = leb_ℤ (at -ℤ pos interval) r.occurred_at && ltb_ℤ r.occurred_at at

-- bool_or, which is NULL over no rows
unfoldable pub bool_or : List Bool → Option Bool
bool_or [] = none
bool_or (b ∷ bs) = elim (bool_or bs) [ none ↦ some b | some c ↦ some (b || c) ]

-- sum, COALESCEd to 0; a NULL is skipped
unfoldable pub sum : List (Option ℤ) → ℤ
sum [] = pos 0
sum (none ∷ xs) = sum xs
sum (some x ∷ xs) = x +ℤ sum xs

-- Scan refuses a sum that an int64 does not hold, and a NULL for a bool.
unfoldable pub scan_int64 : ℤ → Result ℤ
scan_int64 n =
    if leb_ℤ (negsuc 9_223_372_036_854_775_807) n && leb_ℤ n (pos 9_223_372_036_854_775_807)
    then ok n
    else err (text "value is out of range for int64")

unfoldable pub scan_bool : Option Bool → Result Bool
scan_bool none = err (text "cannot scan NULL into *bool")
scan_bool (some b) = ok b

-- The parameters of the query: account, time, merchant and country.
pub record Subject : Type 0 where
  pub account : String
  pub at : ℤ
  pub merchant : String
  pub country : String

-- WHERE account_id = $1 AND occurred_at >= $2 - interval '90 days'
unfoldable pub account_rows : Subject → List TransactionRow → List TransactionRow
account_rows s =
    keep λ r. r.account_id == s.account && leb_ℤ (s.at -ℤ pos ninety_days) r.occurred_at

abbrev pub at_merchant : Subject → TransactionRow → Bool
at_merchant s r = r.merchant_id == s.merchant && ltb_ℤ r.occurred_at s.at

abbrev pub in_country : Subject → TransactionRow → Bool
in_country s r = r.merchant_country == s.country && ltb_ℤ r.occurred_at s.at

unfoldable pub spend : (Bytes → Option ℤ) → Subject → List TransactionRow → ℤ
spend amount s rows = sum (map (λ r. amount r.raw_event) (keep (in_window s.at one_hour) rows))

-- The aggregate over the rows that the WHERE leaves, and its Scan.
unfoldable pub aggregate : (Bytes → Option ℤ) → Subject → List TransactionRow → Result History
aggregate amount s rows = do
  spend_1h ← scan_int64 (spend amount s rows)
  seen_merchant ← scan_bool (bool_or (map (at_merchant s) rows))
  seen_country ← scan_bool (bool_or (map (in_country s) rows))
  ok (record {
    transaction_count_10m = pos (length (keep (in_window s.at ten_minutes) rows));
    spend_minor_1h = spend_1h;
    seen_merchant = seen_merchant;
    seen_country = seen_country;
  })

unfoldable pub select_history : (Bytes → Option ℤ) → Subject → List TransactionRow → Result History
select_history amount s rows = aggregate amount s (account_rows s rows)
