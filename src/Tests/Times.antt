-- ===== src/Tests/Times.antt =====
-- A wire to run the endpoints on: times as that many dots, Base64 as the text itself, and the
-- number 2.
use Prim.Native.String.{String}
use Prim.Native.Char.{code}
use learn_go_project.Prelude.{
  ℕ, zero, suc, ◌≡◌, refl, ap, false, ◌==◌, has_char, ℤ, pos, negsuc, eqb, if◌then◌else◌,
}
use learn_go_project.Errors.{text, Result, ok, err}
use learn_go_project.Domain.{Time}
use learn_go_project.HttpApi.Wire.{Wire, IsWire}

abbrev ticks : ℕ → String
ticks zero = ""
ticks (suc n) = String.◌∷◌ "." (ticks n)

abbrev format_time : Time → String
format_time (pos n) = ticks n
format_time (negsuc n) = String.◌∷◌ "-" (ticks n)

abbrev count_ticks : String → ℕ
count_ticks String.[] = 0
count_ticks (String.◌∷◌ c s) = suc (count_ticks s)

abbrev parse_time : String → Result Time
parse_time String.[] = ok (pos 0)
parse_time (String.◌∷◌ c s) =
    if eqb (code c) b'-' then ok (negsuc (count_ticks s)) else ok (pos (suc (count_ticks s)))

abbrev atoi : String → Result ℤ
atoi s = if s == "1" then ok (pos 1) else err (text "invalid syntax")

abbrev pub wire : Wire
wire = record {
  format_time = format_time;
  parse_time = parse_time;
  encode_base64 = λ s. s;
  decode_base64 = λ s. ok s;
  atoi = atoi;
}

count_ticks-ticks : (n : ℕ) → count_ticks (ticks n) ≡ n
count_ticks-ticks zero = refl
count_ticks-ticks (suc n) = ap suc (count_ticks-ticks n)

keeps_times : (t : Time) → parse_time (format_time t) ≡ ok t
keeps_times (pos zero) = refl
keeps_times (pos (suc n)) = ap (λ (m : ℕ). ok (pos (suc m))) (count_ticks-ticks n)
keeps_times (negsuc n) = ap (λ (m : ℕ). ok (negsuc m)) (count_ticks-ticks n)

no_bar : (n : ℕ) → has_char b'|' (ticks n) ≡ false
unfolding has_char
no_bar zero = refl
no_bar (suc n) = no_bar n

no_bar_time : (t : Time) → has_char b'|' (format_time t) ≡ false
unfolding has_char
no_bar_time (pos n) = no_bar n
no_bar_time (negsuc n) = no_bar n

pub wire-IsWire : IsWire wire
wire-IsWire = record {
  keeps_times = λ t h. keeps_times t;
  no_bar = no_bar_time;
  keeps_texts = λ s. refl;
  keeps_nonempty = λ s. refl;
}
