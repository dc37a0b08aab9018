-- ===== src/Store/History/Window.antt =====
-- The history of an event is that of the account's earlier rows.
use learn_go_project.Prelude.{
  ℕ, ◌≤◌, ◌≡◌, refl, Bool, true, false, ◌&&◌, ◌||◌, Option, some, List, [], ◌∷◌, ◌++◌, map, ℤ, pos,
  ◌-ℤ◌, -ℤ_parts, leb_ℤ, ltb_ℤ, leb_ℤ_sub, ltb_ℤ_self, keep, length, ◌==◌, arith,
}
use learn_go_project.Errors.{ok}
use learn_go_project.Domain.{History}
use learn_go_project.Platform.{Bytes}
use learn_go_project.Store.Tables.{TransactionRow}
use learn_go_project.Store.History.{
  Subject, ten_minutes, one_hour, ninety_days, in_window, bool_or, sum, scan_int64, scan_bool,
  account_rows, spend, aggregate, select_history,
}

unfoldable any : (TransactionRow → Bool) → List TransactionRow → Bool
any t [] = false
any t (r ∷ rs) = t r || any t rs

-- The rows of the account strictly before the event.
unfoldable pub earlier : Subject → List TransactionRow → List TransactionRow
earlier s = keep λ r. r.account_id == s.account && ltb_ℤ r.occurred_at s.at

-- Whether a row is no older than an interval before the event.
abbrev pub since : Subject → ℕ → TransactionRow → Bool
since s interval r = leb_ℤ (s.at -ℤ pos interval) r.occurred_at

-- What the features should be computed from, with no aggregate and no NULL.
unfoldable pub expected : (Bytes → Option ℤ) → Subject → List TransactionRow → History
unfolding any earlier
expected amount s rows = record {
  transaction_count_10m = pos (length (keep (since s ten_minutes) (earlier s rows)));
  spend_minor_1h = sum (map (λ r. amount r.raw_event) (keep (since s one_hour) (earlier s rows)));
  seen_merchant = any (λ r. r.merchant_id == s.merchant && since s ninety_days r) (earlier s rows);
  seen_country =
      any (λ r. r.merchant_country == s.country && since s ninety_days r) (earlier s rows);
}

-- A shorter window lies in the window of 90 days.
wider :
    (s : Subject) (n : ℕ) (r : TransactionRow)
    → n ≤ ninety_days
    → since s n r ≡ true
    → since s ninety_days r ≡ true
wider s n r h k = ground (arith, -ℤ_parts s.at (pos n), -ℤ_parts s.at (pos ninety_days))

module _ (s : Subject) (new : TransactionRow) (own : (new.account_id == s.account) ≡ true)
    (now : new.occurred_at ≡ s.at) where
  window :
      (n : ℕ) (rows : List TransactionRow)
      → n ≤ ninety_days
      → keep (in_window s.at n) (account_rows s (rows ++ new ∷ []))
        ≡ keep (since s n) (earlier s rows)
  unfolding in_window account_rows earlier
  window n [] h = ground (arith, ltb_ℤ_self s.at)
  window n (r ∷ rows) h = ground (arith, window n rows h, wider s n r h)

  seen :
      (t : TransactionRow → Bool) (rows : List TransactionRow)
      → bool_or (map (λ r. t r && ltb_ℤ r.occurred_at s.at) (account_rows s (rows ++ new ∷ [])))
        ≡ some (any (λ r. t r && since s ninety_days r) (earlier s rows))
  unfolding bool_or account_rows any earlier
  seen t [] = ground (arith, ltb_ℤ_self s.at, leb_ℤ_sub s.at ninety_days)
  seen t (r ∷ rows) = ground (arith, seen t rows)

  -- The row of the event itself is in the query's window and counts for nothing: if the account
  -- spent an amount that an int64 holds, the query over the table with that row gives the history
  -- of the rows strictly before the event, and no NULL.
  pub select_history-eq-expected :
      (amount : Bytes → Option ℤ) (rows : List TransactionRow)
      → scan_int64 (expected amount s rows).spend_minor_1h
        ≡ ok (expected amount s rows).spend_minor_1h
      → select_history amount s (rows ++ new ∷ []) ≡ ok (expected amount s rows)
  unfolding select_history aggregate spend expected scan_bool
  select_history-eq-expected amount rows fits =
      rw (window ten_minutes rows (omega arith), window one_hour rows (omega arith))
        (rw
          (
            seen (λ r. r.merchant_id == s.merchant) rows,
            seen (λ r. r.merchant_country == s.country) rows,
          )
          (rw fits refl))
