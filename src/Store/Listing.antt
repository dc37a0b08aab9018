-- ===== src/Store/Listing.antt =====
-- `ListTransactions` of internal/store/postgres.go: pages of transactions, the latest first, each
-- taken up behind the last record of the one before.
pub mod Order
pub mod Reads
pub mod Pages
use learn_go_project.Prelude.{
  ℕ, suc, ◌+◌, String, Bool, true, false, not, ◌&&◌, ◌||◌, ◌==◌, Option, none, some, List, [], ◌∷◌,
  keep, take, length, map, ℤ, pos, negsuc, ltb, leb, eqb_ℤ, ltb_ℤ, if◌then◌else◌,
}
use learn_go_project.Errors.{Error, Result, ok, err, wrap, ◌>>=◌}
use learn_go_project.Domain.{TransactionRecord}
use learn_go_project.Platform.{Platform}
use learn_go_project.Store.Tables.{Tables}
use learn_go_project.Store.Records.{JoinedRow, Cursor, row_id, joined_rows, scan_record}

-- `ListFilter`; a cursor that is nil is `none`
pub record ListFilter : Type 0 where
  pub limit : ℤ
  pub action : String
  pub before : Option Cursor

-- `Page`
pub record Page (F : Type 0) : Type 0 where
  pub records : List (TransactionRecord F)
  pub next : Option Cursor

-- The ORDER BY key of a row.
abbrev pub Key : Type 0
Key = ℤ × String

module _ {F : Type 0} where
  abbrev pub row_key : JoinedRow F → Key
  row_key r = (r.transaction.occurred_at, r.transaction.transaction_id)

  -- $1 = '' OR a.recommended_action = $1
  abbrev pub has_action : String → JoinedRow F → Bool
  has_action action r = action == "" || r.assessment.recommended_action == action

-- 20 for a limit out of range
unfoldable pub page_limit : ℤ → ℕ
page_limit (negsuc n) = 20
page_limit (pos n) = if ltb n 1 || ltb 100 n then 20 else n

module _ {F : Type 0} where
  -- The last of a list of records, whose cursor the next page takes up.
  unfoldable pub last_cursor : List (TransactionRecord F × Cursor) → Option Cursor
  last_cursor [] = none
  last_cursor (s ∷ []) = some s.1
  last_cursor (s ∷ t ∷ rest) = last_cursor (t ∷ rest)

  -- The page of at most `limit` + 1 records that were read.
  unfoldable pub cut_page : ℕ → List (TransactionRecord F × Cursor) → Page F
  unfolding last_cursor
  cut_page limit read =
      let shown = take limit read in
      record {
        records = map (λ s. s.0) shown;
        next = if ltb limit (length read) then last_cursor shown else none;
      }

module _ {F : Type 0} (p : Platform F) where
  -- (a.0, a.1) < (b.0, b.1)
  unfoldable pub key_lt : Key → Key → Bool
  key_lt a b = ltb_ℤ a.0 b.0 || (eqb_ℤ a.0 b.0 && p.text_lt a.1 b.1)

  -- $2 IS NULL OR (t.occurred_at, t.transaction_id) < ($2, $3)
  unfoldable pub is_behind : Option Cursor → JoinedRow F → Bool
  unfolding key_lt
  is_behind none r = true
  is_behind (some c) r = key_lt (row_key r) (p.timestamptz c.occurred_at, c.transaction_id)

  -- ORDER BY t.occurred_at DESC, t.transaction_id DESC
  unfoldable pub insert_row : JoinedRow F → List (JoinedRow F) → List (JoinedRow F)
  insert_row r [] = r ∷ []
  insert_row r (s ∷ rows) =
      if key_lt (row_key r) (row_key s) then s ∷ insert_row r rows else r ∷ s ∷ rows

  unfoldable pub sort_rows : List (JoinedRow F) → List (JoinedRow F)
  unfolding insert_row
  sort_rows [] = []
  sort_rows (r ∷ rows) = insert_row r (sort_rows rows)

  -- the query, but for its LIMIT
  unfoldable pub select_rows : ListFilter → Tables F → List (JoinedRow F)
  unfolding sort_rows is_behind
  select_rows f db =
      sort_rows (keep (λ r. has_action f.action r && is_behind f.before r) (joined_rows db))

  -- the loop over the rows
  unfoldable pub scan_rows : List (JoinedRow F) → Result (List (TransactionRecord F × Cursor))
  scan_rows [] = ok []
  scan_rows (r ∷ rows) = do s ← scan_record p r; rest ← scan_rows rows; ok (s ∷ rest)

  -- `ListTransactions`, with the error of the query, and that of the iteration with the number of
  -- rows before it, if any
  unfoldable pub list_transactions :
      Option Error → Option (ℕ × Error) → ListFilter → Tables F → Result (Page F)
  unfolding page_limit select_rows scan_rows cut_page
  list_transactions (some e) broken f db = err (wrap "list transactions" e)
  list_transactions none (some (n, e)) f db =
      scan_rows (take n (take (page_limit f.limit + 1) (select_rows f db))) >>= λ read.
      err (wrap "iterate transactions" e)
  list_transactions none none f db =
      scan_rows (take (page_limit f.limit + 1) (select_rows f db)) >>= λ read.
      ok (cut_page (page_limit f.limit) read)
