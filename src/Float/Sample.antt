-- ===== src/Float/Sample.antt =====
-- Whole numbers with a NaN: a type that meets the laws, for runs on concrete inputs.
use learn_go_project.Prelude.{
  ℕ, Bool, false, ◌*◌, ◌/◌, Option, none, some, ℤ, pos, pos_part, neg_part, sub_ℕ, ◌+ℤ◌, ◌-ℤ◌,
  leb_ℤ, ltb_ℤ, eqb_ℤ, arith, if◌then◌else◌, ◌+◌,
}
use learn_go_project.Float.Interface.{Float64, IsIeee}

abbrev pub Whole : Type 0
Whole = Option ℤ

abbrev pub whole : ℕ → Whole
whole n = some (pos n)

abbrev lift : (ℤ → ℤ → ℤ) → Whole → Whole → Whole
lift f (some a) (some b) = some (f a b)
lift f _ _ = none

abbrev test : (ℤ → ℤ → Bool) → Whole → Whole → Bool
test f (some a) (some b) = f a b
test f _ _ = false

abbrev mul_ℤ : ℤ → ℤ → ℤ
mul_ℤ a b =
    sub_ℕ (pos_part a * pos_part b + neg_part a * neg_part b)
      (pos_part a * neg_part b + neg_part a * pos_part b)

abbrev div_ℤ : ℤ → ℤ → ℤ
div_ℤ a b =
    sub_ℕ (pos_part a / pos_part b + neg_part a / neg_part b)
      (pos_part a / neg_part b + neg_part a / pos_part b)

-- The curve `e^x` is stood for by 0 below 0 and by 1 from there on.
abbrev step : Whole → Whole
step none = none
step (some a) = some (if ltb_ℤ a (pos 0) then pos 0 else pos 1)

abbrev magnitude : Whole → Whole
magnitude none = none
magnitude (some a) = some (pos (pos_part a + neg_part a))

abbrev unchanged : Whole → Whole
unchanged x = x

instance abbrev pub whole_float : Float64 Whole
whole_float = record {
  of_int = some;
  add = lift ◌+ℤ◌;
  sub = lift ◌-ℤ◌;
  mul = lift mul_ℤ;
  div = lift div_ℤ;
  neg = lift ◌-ℤ◌ (some (pos 0));
  lt = test ltb_ℤ;
  le = test leb_ℤ;
  eq = test eqb_ℤ;
  abs = magnitude;
  exp = step;
  log1p = unchanged;
  min = lift (λ a b. if leb_ℤ a b then a else b);
  is_infinite = λ x. false;
}

pub Whole-IsIeee : IsIeee Whole
Whole-IsIeee = record {
  of_int_number = λ n. ground arith;
  le_numbers = λ x y h. ground arith;
  lt_numbers = λ x y h. ground arith;
  eq_numbers = λ x y h. ground arith;
  le_trans = λ x y z h k. ground arith;
  le_total = λ x y h k. ground arith;
  lt-eq-not-le = λ x y h k. ground arith;
  eq-eq-le = λ x y h k. ground arith;
}
