-- ===== src/Prelude/Keyed.antt =====
-- Rows looked up by a text column: the tests behind a UNIQUE constraint and a keyed SELECT.
use Prim.Native.Nat.{ℕ, ◌+◌, ◌≤◌, ◌<◌}
use Prim.Native.String.{String}
use mathlib.Core.Path.{◌≡◌, refl}
use mathlib.Core.Bool.{Bool, true, false, ◌||◌}
use mathlib.Core.Option.{Option, none, some}
use mathlib.Core.List.{List, [], ◌∷◌, ◌++◌}
use native.Mathlib.Omega.{arith}
use text.Mathlib.Text.{◌==◌}
use text.Mathlib.TextEquality.{eq_iff}
use text.Mathlib.TextPositions.{eq_refl}
use mathlib.Core.Logic.{inl, inr}
use learn_go_project.Prelude.Tests.{if◌then◌else◌, Bool-cases}

module _ {ℓ} {A : Type ℓ} (column : A → String) where
  -- How many rows hold the key.
  unfoldable pub count_key : String → List A → ℕ
  count_key k [] = 0
  count_key k (x ∷ xs) = (if column x == k then 1 else 0) + count_key k xs

  unfoldable pub has_key : String → List A → Bool
  has_key k [] = false
  has_key k (x ∷ xs) = column x == k || has_key k xs

  -- The first row that holds the key.
  unfoldable pub find_key : String → List A → Option A
  find_key k [] = none
  find_key k (x ∷ xs) = if column x == k then some x else find_key k xs

module _ {ℓ} {A : Type ℓ} (column : A → String) (k : String) where
  pub count_key-append :
      (xs ys : List A)
      → count_key column k (xs ++ ys) ≡ count_key column k xs + count_key column k ys
  unfolding count_key
  count_key-append [] ys = omega arith
  count_key-append (x ∷ xs) ys = ground (arith, count_key-append xs ys)

  pub count_key-snoc :
      (xs : List A) (y : A)
      → count_key column k (xs ++ y ∷ []) ≡ count_key column k xs + (if column y == k then 1 else 0)
  unfolding count_key
  count_key-snoc [] y = ground arith
  count_key-snoc (x ∷ xs) y = ground (arith, count_key-snoc xs y)

  pub count_key-zero : (xs : List A) → has_key column k xs ≡ false → count_key column k xs ≡ 0
  unfolding count_key has_key
  count_key-zero [] h = refl
  count_key-zero (x ∷ xs) h = ground (arith, count_key-zero xs)

  pub count_key-pos : (xs : List A) → has_key column k xs ≡ true → 0 < count_key column k xs
  unfolding count_key has_key
  count_key-pos [] h = ground arith
  count_key-pos (x ∷ xs) h = ground (arith, count_key-pos xs)

  pub has_key-of_pos : (xs : List A) → 0 < count_key column k xs → has_key column k xs ≡ true
  unfolding count_key has_key
  has_key-of_pos [] h = ground arith
  has_key-of_pos (x ∷ xs) h = ground (arith, has_key-of_pos xs)

  pub has_key-of_zero : (xs : List A) → count_key column k xs ≡ 0 → has_key column k xs ≡ false
  unfolding count_key has_key
  has_key-of_zero [] h = refl
  has_key-of_zero (x ∷ xs) h = ground (arith, has_key-of_zero xs)

  -- A key that some row holds is found, at a row that holds it.
  pub find_key-of_has :
      (xs : List A)
      → has_key column k xs ≡ true
      → (x : A) × (find_key column k xs ≡ some x) × ((column x == k) ≡ true)
  unfolding has_key find_key
  find_key-of_has [] h = absurd (ground arith)
  find_key-of_has (x ∷ xs) h = elim (Bool-cases (column x == k)) [
    | inl same ↦ (x, rw same, same)
    | inr other ↦
        let (y, found, same) = find_key-of_has xs (ground arith) in (y, rw other found, same)
  ]

  pub find_key-of_not_has :
      (xs : List A) → has_key column k xs ≡ false → find_key column k xs ≡ none
  unfolding has_key find_key
  find_key-of_not_has [] h = refl
  find_key-of_not_has (x ∷ xs) h = ground (arith, find_key-of_not_has xs)

  -- A row appended behind the others is found if no other row holds the key.
  pub find_key-snoc :
      (xs : List A) (y : A)
      → has_key column k xs ≡ false
      → find_key column k (xs ++ y ∷ []) ≡ (if column y == k then some y else none)
  unfolding has_key find_key
  find_key-snoc [] y h = refl
  find_key-snoc (x ∷ xs) y h = ground (arith, find_key-snoc xs y)

  pub has_key-snoc :
      (xs : List A) (y : A) → has_key column k (xs ++ y ∷ []) ≡ has_key column k xs || column y == k
  unfolding has_key
  has_key-snoc [] y = ground arith
  has_key-snoc (x ∷ xs) y = ground (arith, has_key-snoc xs y)

-- A row whose key no other row holds keeps the keys of a table unique.
pub count_key-snoc_le_one {ℓ} :
    {A : Type ℓ} (column : A → String) (k : String) (xs : List A) (y : A)
    → has_key column (column y) xs ≡ false
    → count_key column k xs ≤ 1
    → count_key column k (xs ++ y ∷ []) ≤ 1
count_key-snoc_le_one column k xs y fresh one = elim (Bool-cases (column y == k)) [
  | inl same ↦
      let none_yet : count_key column k xs ≡ 0 =
        count_key-zero column k xs (rw (← (eq_iff (column y) k).0 same) fresh) in
      rw (count_key-snoc column k xs y) (rw (same, none_yet) (omega arith))
  | inr other ↦ rw (count_key-snoc column k xs y) (rw other (omega arith))
]

-- A row just appended is there.
pub has_key-snoc_self {ℓ} :
    {A : Type ℓ} (column : A → String) (xs : List A) (y : A)
    → has_key column (column y) (xs ++ y ∷ []) ≡ true
has_key-snoc_self column xs y =
    ground (arith, has_key-snoc column (column y) xs y, eq_refl (column y))

-- A row that is found stays the one that is found when rows are appended.
pub find_key-append_some {ℓ} :
    {A : Type ℓ} (column : A → String) (k : String) (xs ys : List A) (x : A)
    → find_key column k xs ≡ some x
    → find_key column k (xs ++ ys) ≡ some x
unfolding find_key
find_key-append_some column k [] ys x h = ground arith
find_key-append_some column k (y ∷ xs) ys x h =
    ground (arith, find_key-append_some column k xs ys x)
