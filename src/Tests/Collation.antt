-- ===== src/Tests/Collation.antt =====
-- A collation to run the model on: the order of the code points.
use Prim.Native.Char.{Char, code}
use Prim.Native.String.{String}
use text.Mathlib.TextEquality.{Char-path}
use learn_go_project.Prelude.{◌≡◌, refl, Bool, true, false, ◌&&◌, ◌||◌, ltb, eqb, ap, ◌∙◌, arith}

abbrev pub text_lt : String → String → Bool
text_lt String.[] String.[] = false
text_lt String.[] (String.◌∷◌ d t) = true
text_lt (String.◌∷◌ c s) String.[] = false
text_lt (String.◌∷◌ c s) (String.◌∷◌ d t) =
    ltb (code c) (code d) || (eqb (code c) (code d) && text_lt s t)

pub text_lt_irrefl : (s : String) → text_lt s s ≡ false
text_lt_irrefl String.[] = refl
text_lt_irrefl (String.◌∷◌ c s) = ground (arith, text_lt_irrefl s)

pub text_lt_trans : (s t u : String) → text_lt s t ≡ true → text_lt t u ≡ true → text_lt s u ≡ true
text_lt_trans String.[] String.[] String.[] h k = h
text_lt_trans String.[] (String.◌∷◌ d t) String.[] h k = absurd (ground arith)
text_lt_trans String.[] t (String.◌∷◌ e u) h k = refl
text_lt_trans (String.◌∷◌ c s) String.[] u h k = absurd (ground arith)
text_lt_trans (String.◌∷◌ c s) (String.◌∷◌ d t) String.[] h k = absurd (ground arith)
text_lt_trans (String.◌∷◌ c s) (String.◌∷◌ d t) (String.◌∷◌ e u) h k =
    ground (arith, text_lt_trans s t u)

pub text_lt_total : (s t : String) → text_lt s t ≡ false → text_lt t s ≡ false → s ≡ t
text_lt_total String.[] String.[] h k = refl
text_lt_total String.[] (String.◌∷◌ d t) h k = absurd (ground arith)
text_lt_total (String.◌∷◌ c s) String.[] h k = absurd (ground arith)
text_lt_total (String.◌∷◌ c s) (String.◌∷◌ d t) h k =
    ap (λ (x : Char). String.◌∷◌ x s) (Char-path c d (ground arith))
    ∙ ap (λ (y : String). String.◌∷◌ d y) (text_lt_total s t (ground arith) (ground arith))
