-- ===== src/Store/Listing/Pages.antt =====
-- Following the cursors from page to page lists every record once.
use mathlib.Core.List.{append_assoc}
use learn_go_project.Prelude.{
  Bool, true, ◌==◌, ◌&&◌, if◌then◌else◌, ℕ, zero, suc, ◌+◌, ◌-◌, ◌≤◌, ◌<◌, String, ◌≡◌, refl, sym,
  ◌∙◌, ap, subst, true, Bool-cases, inl, inr, Option, none, some, List, [], ◌∷◌, ◌++◌, keep,
  count_key, take, length, map, pos, negsuc, ℤ, ltb, arith,
}
use learn_go_project.Errors.{Result, ok, err}
use learn_go_project.Domain.{TransactionRecord}
use learn_go_project.Platform.{Platform, IsPlatform}
use learn_go_project.Store.Tables.{Tables, label_key}
use learn_go_project.Store.Consistency.{IsConsistent}
use learn_go_project.Store.Records.Lookup.{joined_rows-HasDistinctIds}
use learn_go_project.Store.Records.{JoinedRow, Cursor, joined_rows, scan_record}
use learn_go_project.Store.Listing.{
  ListFilter, Page, Key, row_key, has_action, page_limit, key_lt, is_behind, sort_rows, select_rows,
  scan_rows, last_cursor, cut_page, list_transactions,
}
use learn_go_project.Store.Listing.Order.{
  HasDistinctIds, HasDistinctIds-keep, keep-keep, IsDescending, sort_rows-IsDescending,
  IsLatestFirst, IsDescending-IsLatestFirst, keep-sort_rows, keep_behind,
}
use learn_go_project.Store.Listing.Reads.{
  Reads, Reads-of_scan, scan-of_Reads, Reads-take, length-Reads, scan_record-key, Split,
  Split-of_Reads,
}

abbrev pub behind : ListFilter → Cursor → ListFilter
behind f c = record f { before = some c }

module _ {F : Type 0} where
  -- A page and, if it has a cursor, the pages that follow.
  abbrev pub and_next :
      Result (Page F)
      → (Cursor → Option (List (TransactionRecord F)))
      → Option (List (TransactionRecord F))
  and_next (err e) next = none
  and_next (ok page) next = elim page.next [
    | none ↦ some page.records
    | some c ↦ elim (next c) [ none ↦ none | some rest ↦ some (page.records ++ rest) ]
  ]

module _ {F : Type 0} (p : Platform F) where
  -- What a client gets that asks for one page after the other, at most so many; `none` if a page
  -- fails or more are left.
  unfoldable pub follow : ℕ → ListFilter → Tables F → Option (List (TransactionRecord F))
  unfolding list_transactions
  follow zero f db = none
  follow (suc n) f db =
      and_next (list_transactions p none none f db) (λ c. follow n (behind f c) db)

page_limit_pos : (limit : ℤ) → 0 < page_limit limit
unfolding page_limit
page_limit_pos (pos n) = ground arith
page_limit_pos (negsuc n) = omega arith

module _ {A : Type 0} where
  take_all : (n : ℕ) (xs : List A) → length xs ≤ n → take n xs ≡ xs
  take_all zero [] h = refl
  take_all zero (x ∷ xs) h = absurd (omega arith)
  take_all (suc n) [] h = refl
  take_all (suc n) (x ∷ xs) h = rw (take_all n xs (omega arith)) refl

  take-take : (m n : ℕ) (xs : List A) → m ≤ n → take m (take n xs) ≡ take m xs
  take-take zero n xs h = refl
  take-take (suc m) zero xs h = absurd (omega arith)
  take-take (suc m) (suc n) [] h = refl
  take-take (suc m) (suc n) (x ∷ xs) h = rw (take-take m n xs (omega arith)) refl

  length-take : (n : ℕ) (xs : List A) → n ≤ length xs → length (take n xs) ≡ n
  length-take zero xs h = refl
  length-take (suc n) [] h = absurd (omega arith)
  length-take (suc n) (x ∷ xs) h = omega (arith, length-take n xs (omega arith))

module _ {A B : Type 0} where
  map-append : (f : A → B) (ys xs : List A) → map f (xs ++ ys) ≡ map f xs ++ map f ys
  map-append f ys [] = refl
  map-append f ys (x ∷ xs) = rw (map-append f ys xs) refl

module _ {F : Type 0} where
  keep-true : (rows : List (JoinedRow F)) → keep (λ r. true) rows ≡ rows
  keep-true [] = refl
  keep-true (r ∷ rows) = rw (keep-true rows) refl

  shown : List (TransactionRecord F × Cursor) → List (TransactionRecord F)
  shown = map (λ s. s.0)

  last_cursor-snoc :
      (read : List (TransactionRecord F × Cursor)) (s : TransactionRecord F × Cursor)
      → last_cursor (read ++ s ∷ []) ≡ some s.1
  unfolding last_cursor
  last_cursor-snoc [] s = refl
  last_cursor-snoc (t ∷ []) s = refl
  last_cursor-snoc (t ∷ u ∷ read) s = last_cursor-snoc (u ∷ read) s

  -- The last page has no cursor.
  cut_page_last :
      (limit : ℕ) (read : List (TransactionRecord F × Cursor))
      → length read ≤ limit
      → cut_page limit (take (limit + 1) read) ≡ record { records = shown read; next = none }
  unfolding cut_page shown
  cut_page_last limit read h =
      rw (take_all (limit + 1) read (omega arith)) (rw (take_all limit read h) (ground arith))

  -- A page with more records behind it has the cursor of its last one.
  cut_page_more :
      (limit : ℕ) (read front : List (TransactionRecord F × Cursor))
      (s : TransactionRecord F × Cursor)
      → limit < length read
      → take limit read ≡ front ++ s ∷ []
      → cut_page limit (take (limit + 1) read)
        ≡ record { records = shown (front ++ s ∷ []); next = some s.1 }
  unfolding cut_page shown
  cut_page_more limit read front s h taken =
      rw
        (take-take limit (limit + 1) read (omega arith), length-take (limit + 1) read (omega arith))
        (rw (taken, last_cursor-snoc front s) (ground arith))

-- The rows that a request asks for: all without an action, or else those with it.
abbrev pub is_asked_for : {F : Type 0} → String → JoinedRow F → Bool
is_asked_for action r = if action == "" then true else r.assessment.recommended_action == action

-- The query's test is that.
has_action-is_asked_for :
    {F : Type 0} (action : String) (r : JoinedRow F) → has_action action r ≡ is_asked_for action r
has_action-is_asked_for action r = ground arith

module _ {F : Type 0} (p : Platform F) (db : Tables F) where
  -- All rows with the action, in the order of the listing.
  abbrev pub all_rows : String → List (JoinedRow F)
  all_rows action = sort_rows p (keep (is_asked_for action) (joined_rows db))

  list_transactions-Reads :
      (f : ListFilter) (rows : List (JoinedRow F)) (read : List (TransactionRecord F × Cursor))
      → select_rows p f db ≡ rows
      → Reads p rows read
      → list_transactions p none none f db
        ≡ ok (cut_page (page_limit f.limit) (take (page_limit f.limit + 1) read))
  unfolding list_transactions
  list_transactions-Reads f rows read same h =
      rw
        (
          same,
          scan-of_Reads p (take (page_limit f.limit + 1) rows) (take (page_limit f.limit + 1) read)
              (Reads-take p (page_limit f.limit + 1) rows read h),
        )
        refl

  module _ (laws : IsPlatform p) (distinct : HasDistinctIds (joined_rows db)) where
    all_rows-IsLatestFirst : (action : String) → IsLatestFirst (all_rows action)
    all_rows-IsLatestFirst action = IsDescending-IsLatestFirst p (all_rows action) (
        sort_rows-IsDescending p laws (keep (is_asked_for action) (joined_rows db))
          (HasDistinctIds-keep (is_asked_for action) (joined_rows db) distinct))

    select_rows-behind :
        (f : ListFilter) → select_rows p f db ≡ keep (is_behind p f.before) (all_rows f.action)
    unfolding select_rows
    select_rows-behind f =
        ap
          (λ (test : JoinedRow F → Bool).
            sort_rows p (keep (λ r. test r && is_behind p f.before r) (joined_rows db)))
          (λ i r. has_action-is_asked_for f.action r i)
        ∙ ap (sort_rows p)
            (keep-keep (is_asked_for f.action) (is_behind p f.before) (joined_rows db))
        ∙ sym (
            keep-sort_rows p laws (is_behind p f.before)
              (keep (is_asked_for f.action) (joined_rows db))
              (HasDistinctIds-keep (is_asked_for f.action) (joined_rows db) distinct))

    -- Behind the cursor of a row are the rows that stand behind it.
    select_rows_next :
        (f : ListFilter) (front back : List (JoinedRow F)) (r : JoinedRow F)
        (s : TransactionRecord F × Cursor)
        → all_rows f.action ≡ front ++ r ∷ back
        → scan_record p r ≡ ok s
        → select_rows p (behind f s.1) db ≡ back
    unfolding is_behind
    select_rows_next f front back r s split h =
        let sorted =
          sort_rows-IsDescending p laws (keep (is_asked_for f.action) (joined_rows db))
            (HasDistinctIds-keep (is_asked_for f.action) (joined_rows db) distinct) in
        select_rows-behind (behind f s.1)
        ∙ ap (keep (is_behind p (some s.1))) split
        ∙ ap (λ (key : Key). keep (λ x. key_lt p (row_key x) key) (front ++ r ∷ back))
            (scan_record-key p laws r s h)
        ∙ keep_behind p laws front back r
            (subst (λ (rows : List (JoinedRow F)). IsDescending p rows) split sorted)

    -- The next page is read from the rows behind a split.
    select_rows-Split :
        {k : ℕ} (f : ListFilter) (front rows : List (JoinedRow F))
        (read : List (TransactionRecord F × Cursor)) (s : Split p k rows read)
        → all_rows f.action ≡ front ++ rows
        → (all_rows f.action ≡ ((front ++ s.front) ++ s.last ∷ []) ++ s.back)
          × (select_rows p (behind f s.read_last.1) db ≡ s.back)
    select_rows-Split f front rows read s h =
        let split =
          h
          ∙ ap (λ (xs : List (JoinedRow F)). front ++ xs) s.rows_split
          ∙ sym (append_assoc front s.front (s.last ∷ s.back)) in
        (
          split ∙ sym (append_assoc (front ++ s.front) (s.last ∷ []) s.back),
          select_rows_next f (front ++ s.front) s.back s.last s.read_last split s.reads_last,
        )

    -- A page and those behind it.
    follow_page :
        (n k : ℕ) (f : ListFilter) (rows : List (JoinedRow F))
        (read : List (TransactionRecord F × Cursor)) (s : Split p k rows read)
        → select_rows p f db ≡ rows
        → Reads p rows read
        → page_limit f.limit ≡ suc k
        → suc k < length read
        → follow p n (behind f s.read_last.1) db ≡ some (shown s.read_back)
        → follow p (suc n) f db ≡ some (shown read)
    unfolding follow shown
    follow_page n k f rows read s here h limit more again =
        rw (list_transactions-Reads f rows read here h) (
          rw (limit, cut_page_more (suc k) read s.read_front s.read_last more s.taken, again)
            (ap some (
              sym (map-append (λ x. x.0) s.read_back (s.read_front ++ s.read_last ∷ []))
              ∙ ap shown (sym s.read_split))))

    -- From the rows that a filter selects on, the pages list the rest.
    follow_rest :
        (n : ℕ) (f : ListFilter) (front back : List (JoinedRow F))
        (read : List (TransactionRecord F × Cursor))
        → all_rows f.action ≡ front ++ back
        → select_rows p f db ≡ back
        → Reads p back read
        → length back < n
        → follow p n f db ≡ some (shown read)
    unfolding follow
    follow_rest zero f front back read rows here h enough = absurd (omega arith)
    follow_rest (suc n) f front back read rows here h enough =
        elim (Bool-cases (ltb (page_limit f.limit) (length read))) [
          | inl more ↦
              let k = page_limit f.limit - 1 in
              let limit : page_limit f.limit ≡ suc k = omega (arith, page_limit_pos f.limit) in
              let long : suc k < length read = ground (arith, more) in
              let s = Split-of_Reads p k back read h (omega (arith, length-Reads p back read h)) in
              let next = select_rows-Split f front back read s rows in
              follow_page n k f back read s here h limit long (
                follow_rest n (behind f s.read_last.1) ((front ++ s.front) ++ s.last ∷ []) s.back
                  s.read_back next.0 next.1 s.reads_back (omega (arith, s.shorter)))
          | inr last ↦
              rw (list_transactions-Reads f back read here h)
                (rw (cut_page_last (page_limit f.limit) read (ground arith)) refl)
        ]

    follow_distinct :
        (f : ListFilter) (read : List (TransactionRecord F × Cursor)) (n : ℕ)
        → f.before ≡ none
        → scan_rows p (all_rows f.action) ≡ ok read
        → length (all_rows f.action) < n
        → follow p n f db ≡ some (shown read)
    unfolding select_rows is_behind
    follow_distinct f read n first h enough =
        follow_rest n f [] (all_rows f.action) read refl
          (select_rows-behind f ∙ rw first (keep-true (all_rows f.action)))
          (Reads-of_scan p (all_rows f.action) read h) enough

-- Following the cursors from the first page lists every transaction with the action that is asked
-- for once, the latest first, whatever the limit: in a consistent database with one label for a
-- transaction at most, if every row with the action can be read, the pages together are the records
-- of all these rows in the order of the listing, and the walk ends after at most one page for each
-- of them and one more.
pub follow_lem :
    {F : Type 0} (p : Platform F) (laws : IsPlatform p) (db : Tables F)
    → IsConsistent db
    → ((k : String) → count_key label_key k db.labels ≤ 1)
    → (f : ListFilter) (read : List (TransactionRecord F × Cursor)) (n : ℕ) → f.before ≡ none
    → scan_rows p (all_rows p db f.action) ≡ ok read
    → length (all_rows p db f.action) < n
    → (follow p n f db ≡ some (map (λ s. s.0) read)) × IsLatestFirst (all_rows p db f.action)
unfolding shown
follow_lem p laws db c one f read n first rows enough =
    let distinct = joined_rows-HasDistinctIds db c one in
    (
      follow_distinct p db laws distinct f read n first rows enough,
      all_rows-IsLatestFirst p db laws distinct f.action,
    )
