-- ===== src/HttpApi/Wire.antt =====
-- What the endpoints call of Go's library and do not implement: times and Base64 as text, and
-- numbers from it. A string is taken as text.
use learn_go_project.Prelude.{
  String, ◌≡◌, Bool, true, false, ◌&&◌, ◌==◌, has_char, ℤ, pos, negsuc, leb_ℤ, ltb_ℤ,
}
use learn_go_project.Errors.{Result, ok}
use learn_go_project.Domain.{Time}

pub record Wire : Type 0 where
  -- when.UTC().Format(time.RFC3339Nano) and time.Parse(time.RFC3339Nano, s)
  pub format_time : Time → String
  pub parse_time : String → Result Time
  -- base64.RawURLEncoding
  pub encode_base64 : String → String
  pub decode_base64 : String → Result String
  -- strconv.Atoi
  pub atoi : String → Result ℤ

-- The times of the years 0 to 9999, which RFC 3339 can write: from 31 622 400 s before Go's zero
-- time to 315 537 897 600 s behind it.
abbrev pub is_writable : Time → Bool
is_writable t = leb_ℤ (negsuc 31_622_399_999_999_999) t && ltb_ℤ t (pos 315_537_897_600_000_000_000)

-- The documented behaviour that proofs rest on.
pub record IsWire (w : Wire) : Type 0 where
  -- a time that RFC 3339 can write is parsed as it was, and its text has no bar
  pub keeps_times : (t : Time) → is_writable t ≡ true → w.parse_time (w.format_time t) ≡ ok t
  pub no_bar : (t : Time) → has_char b'|' (w.format_time t) ≡ false
  -- Base64 is decoded as it was encoded, and encodes nothing as nothing only
  pub keeps_texts : (s : String) → w.decode_base64 (w.encode_base64 s) ≡ ok s
  pub keeps_nonempty : (s : String) → (w.encode_base64 s == "") ≡ (s == "")
