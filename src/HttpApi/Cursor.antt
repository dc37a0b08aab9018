-- ===== src/HttpApi/Cursor.antt =====
-- `encodeCursor` and `decodeCursor` of internal/httpapi/server.go.
use learn_go_project.Prelude.{
  String, ◌≡◌, refl, true, false, ◌==◌, Option, none, some, concat, cut_at, cut_at-concat,
  if◌then◌else◌,
}
use learn_go_project.Errors.{text, Result, ok, err, ◌>>=◌}
use learn_go_project.Domain.{Time}
use learn_go_project.HttpApi.Wire.{Wire, IsWire, is_writable}

module _ (w : Wire) where
  -- `encodeCursor`
  unfoldable pub encode_cursor : Time → String → String
  encode_cursor when id = w.encode_base64 (concat (w.format_time when) (concat "|" id))

  -- The parts of a cursor: a time, and an id behind it.
  unfoldable pub decode_parts : String × Option String → Result (Time × String)
  decode_parts (time, none) = err (text "malformed cursor")
  decode_parts (time, some id) =
      if id == ""
      then err (text "malformed cursor")
      else (w.parse_time time >>= λ when. ok (when, id))

  -- `decodeCursor`
  unfoldable pub decode_cursor : String → Result (Time × String)
  unfolding cut_at decode_parts
  decode_cursor cursor = w.decode_base64 cursor >>= λ raw. decode_parts (cut_at b'|' raw)

  module _ (laws : IsWire w) where
    -- A cursor is decoded as it was encoded, whatever characters the id has, if the id is not empty
    -- and RFC 3339 can write the time.
    pub decode_cursor-encode_cursor :
        (when : Time) (id : String)
        → is_writable when ≡ true
        → (id == "") ≡ false
        → decode_cursor (encode_cursor when id) ≡ ok (when, id)
    unfolding decode_cursor encode_cursor decode_parts
    decode_cursor-encode_cursor when id early there =
        rw (laws.keeps_texts (concat (w.format_time when) (concat "|" id))) (
          rw (cut_at-concat b'|' _ (w.format_time when) id refl (laws.no_bar when))
            (rw there (rw (laws.keeps_times when early) refl)))
