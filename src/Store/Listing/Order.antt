-- ===== src/Store/Listing/Order.antt =====
-- The order of the listing: a strict total order on keys, sorted rows, and what a filter leaves.
use learn_go_project.Prelude.{
  length, ◌≤ℤ◌, ◌≡◌, refl, sym, ◌∙◌, ap, Bool, true, false, Bool-cases, false≢true, ◌&&◌, ◌==◌,
  eq_iff, inl, inr, List, [], ◌∷◌, ◌++◌, keep, All, All-map, All-keep, if◌then◌else◌, arith,
}
use learn_go_project.Platform.{Platform, IsPlatform}
use learn_go_project.Store.Records.{JoinedRow, row_id}
use learn_go_project.Store.Listing.{Key, row_key, key_lt, insert_row, sort_rows}

module _ {F : Type 0} (p : Platform F) (laws : IsPlatform p) where
  key_lt_irrefl : (a : Key) → key_lt p a a ≡ false
  unfolding key_lt
  key_lt_irrefl a = ground (arith, laws.text_irrefl a.1)

  key_lt_trans : (a b c : Key) → key_lt p a b ≡ true → key_lt p b c ≡ true → key_lt p a c ≡ true
  unfolding key_lt
  key_lt_trans a b c h k = ground (arith, laws.text_trans a.1 b.1 c.1)

  key_lt_asym : (a b : Key) → key_lt p a b ≡ true → key_lt p b a ≡ false
  unfolding key_lt
  key_lt_asym a b h = ground (arith, laws.text_trans a.1 b.1 a.1, laws.text_irrefl a.1)

  -- Of two keys with different ids one is below the other.
  key_lt_total : (a b : Key) → (b.1 == a.1) ≡ false → key_lt p a b ≡ false → key_lt p b a ≡ true
  unfolding key_lt
  key_lt_total a b h k = ground (arith, laws.text_total a.1 b.1, eq_iff b.1 a.1)

module _ {F : Type 0} where
  -- No row is later than those before it.
  abbrev pub IsLatestFirst : List (JoinedRow F) → Type 0
  IsLatestFirst [] = Unit
  IsLatestFirst (r ∷ rows) =
      All (λ s. s.transaction.occurred_at ≤ℤ r.transaction.occurred_at) rows × IsLatestFirst rows

  -- No two rows have one transaction id.
  abbrev pub HasDistinctIds : List (JoinedRow F) → Type 0
  HasDistinctIds [] = Unit
  HasDistinctIds (r ∷ rows) = All (λ s. (row_id s == row_id r) ≡ false) rows × HasDistinctIds rows

  pub HasDistinctIds-keep :
      (test : JoinedRow F → Bool) (rows : List (JoinedRow F))
      → HasDistinctIds rows
      → HasDistinctIds (keep test rows)
  HasDistinctIds-keep test [] h = tt
  HasDistinctIds-keep test (r ∷ rows) h = elim (Bool-cases (test r)) [
    | inl t ↦ rw t (
      All-keep (λ s. (row_id s == row_id r) ≡ false) test rows h.0,
      HasDistinctIds-keep test rows h.1,
    )
    | inr t ↦ rw t (HasDistinctIds-keep test rows h.1)
  ]

  All-middle :
      (P : JoinedRow F → Type 0) (front back : List (JoinedRow F)) (r : JoinedRow F)
      → All P (front ++ r ∷ back)
      → P r
  All-middle P [] back r h = h.0
  All-middle P (x ∷ front) back r h = All-middle P front back r h.1

  pub keep-keep :
      (a b : JoinedRow F → Bool) (rows : List (JoinedRow F))
      → keep (λ r. a r && b r) rows ≡ keep b (keep a rows)
  keep-keep a b [] = refl
  keep-keep a b (r ∷ rows) = ground (arith, keep-keep a b rows)

  pub keep-of_All :
      (test : JoinedRow F → Bool) (rows : List (JoinedRow F))
      → All (λ r. test r ≡ true) rows
      → keep test rows ≡ rows
  keep-of_All test [] h = refl
  keep-of_All test (r ∷ rows) h = rw h.0 (rw (keep-of_All test rows h.1) refl)

module _ {F : Type 0} (p : Platform F) where
  abbrev pub ◌≻◌ : JoinedRow F → JoinedRow F → Type 0
  ◌≻◌ r s = key_lt p (row_key s) (row_key r) ≡ true

  -- Each row comes before the rows behind it.
  abbrev pub IsDescending : List (JoinedRow F) → Type 0
  IsDescending [] = Unit
  IsDescending (r ∷ rows) = All (◌≻◌ r) rows × IsDescending rows

  pub IsDescending-IsLatestFirst :
      (rows : List (JoinedRow F)) → IsDescending rows → IsLatestFirst rows
  unfolding key_lt
  IsDescending-IsLatestFirst [] h = tt
  IsDescending-IsLatestFirst (r ∷ rows) h = (
    All-map (◌≻◌ r) (λ s. s.transaction.occurred_at ≤ℤ r.transaction.occurred_at)
        (λ s below. ground (arith, below)) rows h.0,
    IsDescending-IsLatestFirst rows h.1,
  )

  All-insert_row :
      (P : JoinedRow F → Type 0) (r : JoinedRow F) (rows : List (JoinedRow F))
      → P r
      → All P rows
      → All P (insert_row p r rows)
  unfolding insert_row
  All-insert_row P r [] h k = (h, tt)
  All-insert_row P r (s ∷ rows) h k = elim (Bool-cases (key_lt p (row_key r) (row_key s))) [
    | inl t ↦ rw t (k.0, All-insert_row P r rows h k.1)
    | inr t ↦ rw t (h, k)
  ]

  pub All-sort_rows :
      (P : JoinedRow F → Type 0) (rows : List (JoinedRow F)) → All P rows → All P (sort_rows p rows)
  unfolding sort_rows
  All-sort_rows P [] h = tt
  All-sort_rows P (r ∷ rows) h =
      All-insert_row P r (sort_rows p rows) h.0 (All-sort_rows P rows h.1)

  length-keep-insert_row :
      (test : JoinedRow F → Bool) (r : JoinedRow F) (rows : List (JoinedRow F))
      → length (keep test (insert_row p r rows)) ≡ length (keep test (r ∷ rows))
  unfolding insert_row
  length-keep-insert_row test r [] = refl
  length-keep-insert_row test r (s ∷ rows) = ground (arith, length-keep-insert_row test r rows)

  -- The order of the listing has as many rows of any kind as were sorted.
  pub length-keep-sort_rows :
      (test : JoinedRow F → Bool) (rows : List (JoinedRow F))
      → length (keep test (sort_rows p rows)) ≡ length (keep test rows)
  unfolding sort_rows
  length-keep-sort_rows test [] = refl
  length-keep-sort_rows test (r ∷ rows) =
      length-keep-insert_row test r (sort_rows p rows)
      ∙ ground (arith, length-keep-sort_rows test rows)

  insert_row_head :
      (r : JoinedRow F) (rows : List (JoinedRow F))
      → All (λ s. key_lt p (row_key r) (row_key s) ≡ false) rows
      → insert_row p r rows ≡ r ∷ rows
  unfolding insert_row
  insert_row_head r [] h = refl
  insert_row_head r (s ∷ rows) h = rw h.0 refl

  module _ (laws : IsPlatform p) where
    insert_row-IsDescending :
        (r : JoinedRow F) (rows : List (JoinedRow F))
        → All (λ s. (row_id s == row_id r) ≡ false) rows
        → IsDescending rows
        → IsDescending (insert_row p r rows)
    unfolding insert_row
    insert_row-IsDescending r [] new h = (tt, tt)
    insert_row-IsDescending r (s ∷ rows) new h =
        elim (Bool-cases (key_lt p (row_key r) (row_key s))) [
          | inl t ↦
              rw t (All-insert_row (◌≻◌ s) r rows t h.0, insert_row-IsDescending r rows new.1 h.1)
          | inr t ↦
              let above = key_lt_total p laws (row_key r) (row_key s) new.0 t in
              rw t (
                (
                  above,
                  All-map (◌≻◌ s) (◌≻◌ r)
                      (λ x k. key_lt_trans p laws (row_key x) (row_key s) (row_key r) k above) rows
                      h.0,
                ),
                h,
              )
        ]

    pub sort_rows-IsDescending :
        (rows : List (JoinedRow F)) → HasDistinctIds rows → IsDescending (sort_rows p rows)
    unfolding sort_rows
    sort_rows-IsDescending [] h = tt
    sort_rows-IsDescending (r ∷ rows) h =
        insert_row-IsDescending r (sort_rows p rows)
          (All-sort_rows (λ s. (row_id s == row_id r) ≡ false) rows h.0)
          (sort_rows-IsDescending rows h.1)

    -- Nothing behind a row that `r` does not come behind is one that `r` comes behind.
    not_behind :
        (r s : JoinedRow F) (rows : List (JoinedRow F))
        → key_lt p (row_key r) (row_key s) ≡ false
        → All (◌≻◌ s) rows
        → All (λ x. key_lt p (row_key r) (row_key x) ≡ false) rows
    not_behind r s rows h =
        All-map (◌≻◌ s) (λ x. key_lt p (row_key r) (row_key x) ≡ false)
          (λ x k. elim (Bool-cases (key_lt p (row_key r) (row_key x))) [
            | inl t ↦
                absurd
                  (false≢true (sym h ∙ key_lt_trans p laws (row_key r) (row_key x) (row_key s) t k))
            | inr t ↦ t
          ])
          rows

    keep-insert_row :
        (test : JoinedRow F → Bool) (r : JoinedRow F) (rows : List (JoinedRow F))
        → IsDescending rows
        → keep test (insert_row p r rows)
          ≡ (if test r then insert_row p r (keep test rows) else keep test rows)
    unfolding insert_row
    keep-insert_row test r [] h = refl
    keep-insert_row test r (s ∷ rows) h = elim (Bool-cases (key_lt p (row_key r) (row_key s))) [
      | inl t ↦ ground (arith, t, keep-insert_row test r rows h.1)
      | inr t ↦
          let stays = insert_row_head r (keep test rows) (
            All-keep (λ x. key_lt p (row_key r) (row_key x) ≡ false) test rows
              (not_behind r s rows t h.0)) in
          ground (arith, t, stays)
    ]

    -- A filter commutes with the sort.
    pub keep-sort_rows :
        (test : JoinedRow F → Bool) (rows : List (JoinedRow F))
        → HasDistinctIds rows
        → keep test (sort_rows p rows) ≡ sort_rows p (keep test rows)
    unfolding sort_rows
    keep-sort_rows test [] h = refl
    keep-sort_rows test (r ∷ rows) h =
        keep-insert_row test r (sort_rows p rows) (sort_rows-IsDescending rows h.1)
        ∙ elim (Bool-cases (test r)) [
          | inl t ↦ rw t (ap (insert_row p r) (keep-sort_rows test rows h.1))
          | inr t ↦ rw t (keep-sort_rows test rows h.1)
        ]

    -- Behind a row of a sorted list are the rows that stand behind it.
    pub keep_behind :
        (front back : List (JoinedRow F)) (r : JoinedRow F)
        → IsDescending (front ++ r ∷ back)
        → keep (λ s. key_lt p (row_key s) (row_key r)) (front ++ r ∷ back) ≡ back
    keep_behind [] back r h =
        rw (key_lt_irrefl p laws (row_key r))
          (keep-of_All (λ s. key_lt p (row_key s) (row_key r)) back h.0)
    keep_behind (x ∷ front) back r h =
        rw (key_lt_asym p laws (row_key r) (row_key x) (All-middle (◌≻◌ x) front back r h.0))
          (keep_behind front back r h.1)
