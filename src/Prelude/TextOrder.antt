-- ===== src/Prelude/TextOrder.antt =====
-- The order of Go's `<` on texts, by code points.
use Prim.Native.String.compare
use Prim.Native.String.{String, compare}
use mathlib.Core.Path.{◌≡◌, subst}
use mathlib.Core.Logic.{inl, inr}
use mathlib.Core.Bool.{Bool, true, false, not}
use text.Mathlib.Text.{is_lt, ◌==◌}
use text.Mathlib.TextEquality.{eq_iff}
use native.Mathlib.Omega.{arith}
use learn_go_project.Prelude.Tests.{Bool-cases}

-- s < t
abbrev pub text_lt : String → String → Bool
text_lt s t = is_lt (compare s t)

pub text_lt_trans : (r s t : String) → text_lt r s ≡ true → text_lt s t ≡ true → text_lt r t ≡ true
text_lt_trans String.[] String.[] t h k = ground (arith, compare.nil-nil)
text_lt_trans String.[] (String.◌∷◌ d s) String.[] h k = ground (arith, compare.cons-nil d s)
text_lt_trans String.[] (String.◌∷◌ d s) (String.◌∷◌ e t) h k = ground (arith, compare.nil-cons e t)
text_lt_trans (String.◌∷◌ c r) String.[] t h k = ground (arith, compare.cons-nil c r)
text_lt_trans (String.◌∷◌ c r) (String.◌∷◌ d s) String.[] h k = ground (arith, compare.cons-nil d s)
text_lt_trans (String.◌∷◌ c r) (String.◌∷◌ d s) (String.◌∷◌ e t) h k = ground (
  arith,
  text_lt_trans r s t,
  compare.cons-cons c d r s,
  compare.cons-cons d e s t,
  compare.cons-cons c e r t,
)

-- Of two texts one is below the other, or they are equal.
pub text_lt_total : (s t : String) → (s == t) ≡ false → text_lt s t ≡ not (text_lt t s)
text_lt_total String.[] String.[] h = ground (arith, compare.nil-nil)
text_lt_total String.[] (String.◌∷◌ d t) h =
    ground (arith, compare.nil-cons d t, compare.cons-nil d t)
text_lt_total (String.◌∷◌ c s) String.[] h =
    ground (arith, compare.nil-cons c s, compare.cons-nil c s)
text_lt_total (String.◌∷◌ c s) (String.◌∷◌ d t) h =
    ground (arith, text_lt_total s t, compare.cons-cons c d s t, compare.cons-cons d c t s)

-- A text between two others, or equal to the first, is below the second.
pub text_lt_cotrans :
    (r s t : String) → text_lt r t ≡ true → text_lt r s ≡ false → text_lt s t ≡ true
text_lt_cotrans r s t h k = elim (Bool-cases (r == s)) [
  | inl same ↦ subst (λ (x : String). text_lt x t ≡ true) ((eq_iff r s).0 same) h
  | inr other ↦ text_lt_trans s r t (ground (arith, text_lt_total r s)) h
]

pub text_lt_asym : (s t : String) → text_lt s t ≡ true → text_lt t s ≡ false
text_lt_asym String.[] String.[] h = ground (arith, compare.nil-nil)
text_lt_asym String.[] (String.◌∷◌ d t) h = ground (arith, compare.cons-nil d t)
text_lt_asym (String.◌∷◌ c s) String.[] h = ground (arith, compare.cons-nil c s)
text_lt_asym (String.◌∷◌ c s) (String.◌∷◌ d t) h =
    ground (arith, text_lt_asym s t, compare.cons-cons c d s t, compare.cons-cons d c t s)
