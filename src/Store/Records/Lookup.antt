-- ===== src/Store/Records/Lookup.antt =====
-- The joins of a consistent database as three lookups by the transaction id.
use mathlib.Core.List.{append-nil}
use learn_go_project.Prelude.{
  ◌≤◌, String, ◌≡◌, refl, ◌∙◌, ap, false, Bool-cases, ◌==◌, eq_iff, eq_refl, inl, inr, Option, none,
  some, List, [], ◌∷◌, ◌++◌, keep, map, length, count_key, has_key, find_key, has_key-of_zero,
  find_key-of_not_has, All, if◌then◌else◌, arith,
}
use learn_go_project.Errors.{no_rows, ok, err, ◌>>=◌}
use learn_go_project.Platform.{Platform}
use learn_go_project.Store.Tables.{
  TransactionRow, AssessmentRow, LabelRow, Tables, transaction_key, assessment_key, label_key,
}
use learn_go_project.Store.Metrics.{Joined, matches, left_join}
use learn_go_project.Store.Records.{
  JoinedRow, row_id, joined_id, joined_row, join_rows, joined_rows, scan_record, scan_first,
  get_transaction,
}
use learn_go_project.Store.Consistency.{IsConsistent}
use learn_go_project.Store.Listing.Order.{HasDistinctIds}

abbrev pub to_list {ℓ} : {A : Type ℓ} → Option A → List A
to_list none = []
to_list (some a) = a ∷ []

module _ {A : Type 0} (column : A → String) (k : String) where
  keep-of_not_has : (xs : List A) → has_key column k xs ≡ false → keep (λ x. column x == k) xs ≡ []
  unfolding has_key
  keep-of_not_has [] h = refl
  keep-of_not_has (x ∷ xs) h = ground (arith, keep-of_not_has xs)

  -- Of a unique key the rows are the one that is found.
  keep-find_key :
      (xs : List A)
      → count_key column k xs ≤ 1
      → keep (λ x. column x == k) xs ≡ to_list (find_key column k xs)
  unfolding count_key find_key
  keep-find_key [] h = refl
  keep-find_key (x ∷ xs) h = elim (Bool-cases (column x == k)) [
    | inl same ↦ rw same (
        ap (λ (ys : List A). x ∷ ys)
          (keep-of_not_has xs (has_key-of_zero column k xs (ground (arith, same)))))
    | inr other ↦ rw other (keep-find_key xs (ground (arith, other)))
  ]

  count_key-keep : (xs : List A) → count_key column k xs ≡ length (keep (λ x. column x == k) xs)
  unfolding count_key
  count_key-keep [] = refl
  count_key-keep (x ∷ xs) = ground (arith, count_key-keep xs)

  keep-append :
      (ys xs : List A)
      → keep (λ x. column x == k) (xs ++ ys)
        ≡ keep (λ x. column x == k) xs ++ keep (λ x. column x == k) ys
  keep-append ys [] = refl
  keep-append ys (x ∷ xs) = ground (arith, keep-append ys xs)

module _ {F : Type 0} where
  -- The rows of the join that have an id.
  rows_of : String → List (Joined F) → Option TransactionRow → List (JoinedRow F)
  rows_of k js none = []
  rows_of k js (some t) = map (joined_row t) (keep (λ j. joined_id j == k) js)

  keep-joined_row :
      (k : String) (t : TransactionRow) (js : List (Joined F))
      → keep (λ r. row_id r == k) (map (joined_row t) js)
        ≡ (if t.transaction_id == k then map (joined_row t) js else [])
  keep-joined_row k t [] = ground arith
  keep-joined_row k t (j ∷ js) = ground (arith, keep-joined_row k t js)

  keep-join_rows :
      (k : String) (js : List (Joined F)) (ts : List TransactionRow)
      → count_key transaction_key k ts ≤ 1
      → keep (λ r. row_id r == k) (join_rows js ts) ≡ rows_of k js (find_key transaction_key k ts)
  unfolding join_rows rows_of count_key find_key
  keep-join_rows k js [] h = refl
  keep-join_rows k js (t ∷ ts) h =
      let here =
        λ (id : String). map (joined_row t) (keep (λ (j : Joined F). joined_id j == id) js) in
      keep-append row_id k (join_rows js ts) (here t.transaction_id)
      ∙ rw (keep-joined_row k t (keep (λ j. joined_id j == t.transaction_id) js))
          (elim (Bool-cases (t.transaction_id == k)) [
            | inl same ↦ rw same (
                let gone : has_key transaction_key k ts ≡ false =
                  has_key-of_zero transaction_key k ts (ground (arith, same)) in
                rw (keep-join_rows k js ts (ground (arith, same))) (
                  rw (find_key-of_not_has transaction_key k ts gone) (
                    append-nil (here t.transaction_id)
                    ∙ ap here ((eq_iff t.transaction_id k).0 same))))
            | inr other ↦ rw other (keep-join_rows k js ts (ground (arith, other)))
          ])

  -- The rows of assessments and labels that have an id.
  joined_of : String → List LabelRow → Option (AssessmentRow F) → List (Joined F)
  joined_of k labels none = []
  joined_of k labels (some a) = (a, find_key label_key k labels) ∷ []

  matches-find_key :
      (a : AssessmentRow F) (labels : List LabelRow)
      → count_key label_key a.transaction_id labels ≤ 1
      → matches a (keep (λ l. l.transaction_id == a.transaction_id) labels)
        ≡ (a, find_key label_key a.transaction_id labels) ∷ []
  unfolding matches
  matches-find_key a labels h =
      rw (keep-find_key label_key a.transaction_id labels h)
        (elim (find_key label_key a.transaction_id labels)
          as (λ o. matches a (to_list o) ≡ (a, o) ∷ []) [ none ↦ refl | some l ↦ refl ])

  keep-left_join :
      (k : String) (labels : List LabelRow) (rows : List (AssessmentRow F))
      → ((k : String) → count_key label_key k labels ≤ 1)
      → count_key assessment_key k rows ≤ 1
      → keep (λ j. joined_id j == k) (left_join labels rows)
        ≡ joined_of k labels (find_key assessment_key k rows)
  unfolding left_join joined_of count_key find_key
  keep-left_join k labels [] one h = refl
  keep-left_join k labels (a ∷ rows) one h =
      rw (matches-find_key a labels (one a.transaction_id))
        (elim (Bool-cases (a.transaction_id == k)) [
          | inl same ↦ rw same (
              let gone : has_key assessment_key k rows ≡ false =
                has_key-of_zero assessment_key k rows (ground (arith, same)) in
              rw (keep-left_join k labels rows one (ground (arith, same))) (
                rw (find_key-of_not_has assessment_key k rows gone) (
                  ap (λ (id : String). (a, find_key label_key id labels) ∷ [])
                    ((eq_iff a.transaction_id k).0 same))))
          | inr other ↦ rw other (keep-left_join k labels rows one (ground (arith, other)))
        ])

  abbrev pub join_found :
      Option TransactionRow → Option (AssessmentRow F) → Option LabelRow → Option (JoinedRow F)
  join_found none a l = none
  join_found (some t) none l = none
  join_found (some t) (some a) l = some (record { transaction = t; assessment = a; label = l })

  -- What the tables hold of an id: its transaction, its assessment, and its label unless it has none.
  unfoldable pub look_up : String → Tables F → Option (JoinedRow F)
  look_up id db =
      join_found (find_key transaction_key id db.transactions)
        (find_key assessment_key id db.assessments) (find_key label_key id db.labels)

  module _ (db : Tables F) (c : IsConsistent db)
      (one : (k : String) → count_key label_key k db.labels ≤ 1) where
    keep-joined_rows :
        (id : String) → keep (λ r. row_id r == id) (joined_rows db) ≡ to_list (look_up id db)
    unfolding look_up rows_of joined_of
    keep-joined_rows id =
        let a = find_key assessment_key id db.assessments in
        let l = find_key label_key id db.labels in
        keep-join_rows id (left_join db.labels db.assessments) db.transactions
          (c.one_transaction id)
        ∙ elim (find_key transaction_key id db.transactions)
            as (λ o.
              rows_of id (left_join db.labels db.assessments) o ≡ to_list (join_found o a l)) [
                | none ↦ refl
                | some t ↦
                    rw
                      (keep-left_join id db.labels db.assessments one
                        (omega (arith, c.assessed id, c.one_transaction id)))
                      (elim a
                        as (λ o.
                          map (joined_row t) (joined_of id db.labels o)
                          ≡ to_list (join_found (some t) o l)) [ none ↦ refl | some x ↦ refl ])
              ]

    count_key-joined_rows : (id : String) → count_key row_id id (joined_rows db) ≤ 1
    count_key-joined_rows id =
        rw (count_key-keep row_id id (joined_rows db))
          (rw (keep-joined_rows id) (short (look_up id db)))
      where
        short : (o : Option (JoinedRow F)) → length (to_list o) ≤ 1
        short none = omega arith
        short (some r) = omega arith

  distinct-of_count :
      (rows : List (JoinedRow F))
      → ((id : String) → count_key row_id id rows ≤ 1)
      → HasDistinctIds rows
  unfolding count_key has_key
  distinct-of_count [] h = tt
  distinct-of_count (r ∷ rows) h = (
    absent (row_id r) rows
        (has_key-of_zero row_id (row_id r) rows (ground (arith, h (row_id r), eq_refl (row_id r)))),
    distinct-of_count rows (λ id. omega (arith, h id)),
  )
    where
      absent :
          (id : String) (rows : List (JoinedRow F))
          → has_key row_id id rows ≡ false
          → All (λ s. (row_id s == id) ≡ false) rows
      absent id [] h = tt
      absent id (r ∷ rows) h = (ground arith, absent id rows (ground arith))

  -- A consistent database with one label for a transaction at most has one row for an id.
  pub joined_rows-HasDistinctIds :
      (db : Tables F)
      → IsConsistent db
      → ((k : String) → count_key label_key k db.labels ≤ 1)
      → HasDistinctIds (joined_rows db)
  joined_rows-HasDistinctIds db c one =
      distinct-of_count (joined_rows db) (count_key-joined_rows db c one)

-- In a consistent database with one label for a transaction at most, the joins of `GetTransaction`
-- come down to three lookups by the id: if the query is answered, the result is the record of the
-- transaction, the assessment and the label, if any, that the tables hold of the id, or the error
-- of no rows if the transaction or its assessment is missing.
pub get_transaction-look_up :
    {F : Type 0} (p : Platform F) (id : String) (db : Tables F)
    → IsConsistent db
    → ((k : String) → count_key label_key k db.labels ≤ 1)
    → get_transaction p none id db
      ≡ elim (look_up id db) [ none ↦ err no_rows | some r ↦ scan_record p r >>= λ s. ok s.0 ]
unfolding get_transaction
get_transaction-look_up p id db c one =
    rw (keep-joined_rows db c one id)
      (elim (look_up id db)
        as (λ o.
          scan_first p (to_list o)
          ≡ elim o [ none ↦ err no_rows | some r ↦ scan_record p r >>= λ s. ok s.0 ]) [
            | none ↦ refl
            | some r ↦ refl
          ])
