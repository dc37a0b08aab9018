-- ===== src/Prelude/Texts.antt =====
-- Texts, walked by their characters: what the code uses of Go's `strings`. A separator is given by
-- its code point.
use Prim.Native.Nat.{ℕ}
use Prim.Native.Char.{Char, code}
use Prim.Native.String.{String, ◌++◌}
use mathlib.Core.Path.{◌≡◌, refl, ap, ◌∙◌}
use mathlib.Core.Logic.{inl, inr}
use mathlib.Core.Bool.{Bool, false, ◌&&◌, ◌||◌}
use mathlib.Core.Option.{Option, none, some}
use mathlib.Core.List.{List, [], ◌∷◌}
use native.Mathlib.Omega.{arith}
use text.Mathlib.TextLemmas.{nil-append, cons-append}
use learn_go_project.Prelude.Lists.{All}
use learn_go_project.Prelude.Tests.{if◌then◌else◌, Bool-cases, eqb, leb}

-- strings.Contains, of one character
unfoldable pub has_char : ℕ → String → Bool
has_char n String.[] = false
has_char n (String.◌∷◌ c s) = eqb (code c) n || has_char n s

-- `+` on strings
abbrev pub concat : String → String → String
concat s t = s ++ t

-- strings.Join
unfoldable pub join_with : String → List String → String
join_with sep [] = String.[]
join_with sep (w ∷ []) = w
join_with sep (w ∷ v ∷ ws) = concat w (concat sep (join_with sep (v ∷ ws)))

-- strings.SplitN(s, sep, 2): what stands before the first separator, and what behind it if there
-- is one
unfoldable pub cut_at : ℕ → String → String × Option String
cut_at n String.[] = (String.[], none)
cut_at n (String.◌∷◌ c s) =
    let rest = cut_at n s in
    if eqb (code c) n then (String.[], some s) else (String.◌∷◌ c rest.0, rest.1)

-- strings.Split
abbrev pub push_char : Char → List String → List String
push_char c [] = String.◌∷◌ c String.[] ∷ []
push_char c (w ∷ ws) = String.◌∷◌ c w ∷ ws

unfoldable pub split_on : ℕ → String → List String
split_on n String.[] = String.[] ∷ []
split_on n (String.◌∷◌ c s) =
    let rest = split_on n s in if eqb (code c) n then String.[] ∷ rest else push_char c rest

-- unicode.IsSpace
abbrev pub is_space : Char → Bool
is_space c =
    let n = code c in
    (leb 9 n && leb n 13)
    || eqb n 32
    || eqb n 0x85
    || eqb n 0xa0
    || eqb n 0x1680
    || (leb 0x2000 n && leb n 0x200a)
    || eqb n 0x2028
    || eqb n 0x2029
    || eqb n 0x202f
    || eqb n 0x205f
    || eqb n 0x3000

-- strings.TrimSpace
unfoldable pub trim_left : String → String
trim_left String.[] = String.[]
trim_left (String.◌∷◌ c s) = let rest = trim_left s in if is_space c then rest else String.◌∷◌ c s

abbrev pub trim_end : Char → String → String
trim_end c String.[] = if is_space c then String.[] else String.◌∷◌ c String.[]
trim_end c (String.◌∷◌ d s) = String.◌∷◌ c (String.◌∷◌ d s)

unfoldable pub trim_right : String → String
trim_right String.[] = String.[]
trim_right (String.◌∷◌ c s) = trim_end c (trim_right s)

unfoldable pub trim : String → String
unfolding trim_left trim_right
trim s = trim_right (trim_left s)

-- strings.TrimRight(s, "/")
abbrev pub trim_slash : Char → String → String
trim_slash c String.[] = if eqb (code c) b'/' then String.[] else String.◌∷◌ c String.[]
trim_slash c (String.◌∷◌ d s) = String.◌∷◌ c (String.◌∷◌ d s)

unfoldable pub trim_slashes : String → String
trim_slashes String.[] = String.[]
trim_slashes (String.◌∷◌ c s) = trim_slash c (trim_slashes s)

pub concat_one : (c : Char) (t : String) → concat (String.◌∷◌ c String.[]) t ≡ String.◌∷◌ c t
concat_one c t = cons-append c String.[] t ∙ ap (λ (s : String). String.◌∷◌ c s) (nil-append t)

-- A text without the separator, and one behind it, are told apart again.
pub cut_at-concat :
    (n : ℕ) (c : Char) (s t : String)
    → code c ≡ n
    → has_char n s ≡ false
    → cut_at n (concat s (concat (String.◌∷◌ c String.[]) t)) ≡ (s, some t)
unfolding cut_at has_char
cut_at-concat n c String.[] t e h =
    rw (nil-append (concat (String.◌∷◌ c String.[]) t)) (rw (concat_one c t) (ground (arith, e)))
cut_at-concat n c (String.◌∷◌ d s) t e h =
    rw (cons-append d s (concat (String.◌∷◌ c String.[]) t))
      (rw (cut_at-concat n c s t e (ground (arith, h))) (ground (arith, h)))

pub split_on-concat :
    (n : ℕ) (c : Char) (s t : String)
    → code c ≡ n
    → has_char n s ≡ false
    → split_on n (concat s (concat (String.◌∷◌ c String.[]) t)) ≡ s ∷ split_on n t
unfolding split_on has_char
split_on-concat n c String.[] t e h =
    rw (nil-append (concat (String.◌∷◌ c String.[]) t)) (rw (concat_one c t) (ground (arith, e)))
split_on-concat n c (String.◌∷◌ d s) t e h =
    rw (cons-append d s (concat (String.◌∷◌ c String.[]) t))
      (rw (split_on-concat n c s t e (ground (arith, h))) (ground (arith, h)))

pub split_on_single : (n : ℕ) (s : String) → has_char n s ≡ false → split_on n s ≡ s ∷ []
unfolding split_on has_char
split_on_single n String.[] h = refl
split_on_single n (String.◌∷◌ c s) h =
    rw (split_on_single n s (ground (arith, h))) (ground (arith, h))

-- The parts of a text hold no separator.
pub split_on-All : (n : ℕ) (s : String) → All (λ w. has_char n w ≡ false) (split_on n s)
unfolding split_on has_char
split_on-All n String.[] = (refl, tt)
split_on-All n (String.◌∷◌ c s) = elim (Bool-cases (eqb (code c) n)) [
  | inl t ↦ rw t (refl, split_on-All n s)
  | inr t ↦ rw t (pushed t (split_on n s) (split_on-All n s))
]
  where
    pushed :
        eqb (code c) n ≡ false
        → (ws : List String) → All (λ w. has_char n w ≡ false) ws
        → All (λ w. has_char n w ≡ false) (push_char c ws)
    pushed t [] h = (rw t refl, tt)
    pushed t (w ∷ ws) h = (rw t h.0, h.1)
