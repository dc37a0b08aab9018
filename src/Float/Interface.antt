-- ===== src/Float/Interface.antt =====
-- The operations on `float64`, and the laws of their comparisons.
use learn_go_project.Prelude.{◌≡◌, ◌⊎◌, Bool, true, not, ◌&&◌, ℤ}

pub record Float64 (F : Type 0) : Type 0 where
  -- float64(n)
  pub of_int : ℤ → F
  pub add : F → F → F
  pub sub : F → F → F
  pub mul : F → F → F
  pub div : F → F → F
  pub neg : F → F
  pub lt : F → F → Bool
  pub le : F → F → Bool
  pub eq : F → F → Bool
  -- math.Abs, math.Exp, math.Log1p, math.Min
  pub abs : F → F
  pub exp : F → F
  pub log1p : F → F
  pub min : F → F → F
  -- math.IsInf(x, 1)
  pub is_infinite : F → Bool

module _ {F : Type 0} ⦃f : Float64 F⦄ where
  -- math.IsNaN
  abbrev pub is_nan : F → Bool
  is_nan x = not (f.eq x x)

  -- x <= y and x < y, as they hold where `x` and `y` are numbers
  infix 4 ◌≼◌ ◌≺◌
  abbrev pub ◌≼◌ : F → F → Type 0
  x ≼ y = f.le x y ≡ true

  abbrev pub ◌≺◌ : F → F → Type 0
  x ≺ y = f.lt x y ≡ true

  abbrev pub IsNumber : F → Type 0
  IsNumber x = f.eq x x ≡ true

-- Comparisons are false on NaN, the value that does not equal itself; away from it `le` is a total
-- preorder, `lt` is its strict part and `eq` its equivalence. An integer converts to a number.
pub record IsIeee (F : Type 0) ⦃f : Float64 F⦄ : Type 0 where
  pub of_int_number : (n : ℤ) → IsNumber (f.of_int n)
  pub le_numbers : (x y : F) → x ≼ y → IsNumber x × IsNumber y
  pub lt_numbers : (x y : F) → x ≺ y → IsNumber x × IsNumber y
  pub eq_numbers : (x y : F) → f.eq x y ≡ true → IsNumber x × IsNumber y
  pub le_trans : (x y z : F) → x ≼ y → y ≼ z → x ≼ z
  pub le_total : (x y : F) → IsNumber x → IsNumber y → (x ≼ y) ⊎ (y ≼ x)
  pub lt-eq-not-le : (x y : F) → IsNumber x → IsNumber y → f.lt x y ≡ not (f.le y x)
  pub eq-eq-le : (x y : F) → IsNumber x → IsNumber y → f.eq x y ≡ f.le x y && f.le y x
