-- ===== src/Stream/Brokers.antt =====
-- `ParseBrokers` of internal/stream/kafka.go: the addresses of a broker list.
use Prim.Native.Char.{Char, code}
use text.Mathlib.TextLemmas.{nil-append, cons-append}
use learn_go_project.Prelude.{
  true, eqb, ◌∙◌, ap, concat, map, ℕ, String, ◌≡◌, refl, false, Bool-cases, ◌==◌, inl, inr, List,
  [], ◌∷◌, has_char, join_with, split_on, split_on-concat, split_on_single, split_on-All, is_space,
  trim_left, trim_end, trim_right, trim, All, if◌then◌else◌, arith,
}

-- The loop over the candidates.
unfoldable pub collect_brokers : List String → List String
unfolding trim
collect_brokers [] = []
collect_brokers (candidate ∷ rest) =
    let brokers = collect_brokers rest in
    if trim candidate == "" then brokers else trim candidate ∷ brokers

-- `ParseBrokers`
unfoldable pub parse_brokers : String → List String
unfolding collect_brokers
parse_brokers value = collect_brokers (split_on b',' value)

trim_right_idem : (s : String) → trim_right (trim_right s) ≡ trim_right s
unfolding trim_right
trim_right_idem String.[] = refl
trim_right_idem (String.◌∷◌ c s) = again (trim_right s) (trim_right_idem s)
  where
    again : (r : String) → trim_right r ≡ r → trim_right (trim_end c r) ≡ trim_end c r
    again String.[] h = elim (Bool-cases (is_space c)) [
      | inl t ↦ rw t refl
      | inr t ↦ rw t (rw t refl)
    ]
    again (String.◌∷◌ d r) h = rw h refl

trim_left-trim_right :
    (s : String) → trim_left (trim_right (trim_left s)) ≡ trim_right (trim_left s)
unfolding trim_left trim_right
trim_left-trim_right String.[] = refl
trim_left-trim_right (String.◌∷◌ c s) = elim (Bool-cases (is_space c)) [
  | inl t ↦ rw t (trim_left-trim_right s)
  | inr t ↦ rw t (stays t (trim_right s))
]
  where
    stays : is_space c ≡ false → (r : String) → trim_left (trim_end c r) ≡ trim_end c r
    stays t String.[] = rw t (rw t refl)
    stays t (String.◌∷◌ d r) = rw t refl

trim_idem : (s : String) → trim (trim s) ≡ trim s
unfolding trim
trim_idem s = rw (trim_left-trim_right s) (trim_right_idem (trim_left s))

module _ (n : ℕ) where
  has_char-trim_left : (s : String) → has_char n s ≡ false → has_char n (trim_left s) ≡ false
  unfolding trim_left has_char
  has_char-trim_left String.[] h = refl
  has_char-trim_left (String.◌∷◌ c s) h = ground (arith, h, has_char-trim_left s)

  has_char-trim_right : (s : String) → has_char n s ≡ false → has_char n (trim_right s) ≡ false
  unfolding trim_right has_char
  has_char-trim_right String.[] h = refl
  has_char-trim_right (String.◌∷◌ c s) h =
      ended (ground (arith, h)) (trim_right s) (has_char-trim_right s (ground (arith, h)))
    where
      ended :
          has_char n (String.◌∷◌ c String.[]) ≡ false
          → (r : String) → has_char n r ≡ false
          → has_char n (trim_end c r) ≡ false
      ended e String.[] k = elim (Bool-cases (is_space c)) [ inl t ↦ rw t refl | inr t ↦ rw t e ]
      ended e (String.◌∷◌ d r) k = ground (arith, e, k)

  has_char-trim : (s : String) → has_char n s ≡ false → has_char n (trim s) ≡ false
  unfolding trim
  has_char-trim s h = has_char-trim_right (trim_left s) (has_char-trim_left s h)

-- What a broker address looks like: not empty, without a comma, and without space around it.
abbrev pub IsAddress : String → Type 0
IsAddress b = ((b == "") ≡ false) × (has_char b',' b ≡ false) × (trim b ≡ b)

collect_brokers-IsAddress :
    (parts : List String)
    → All (λ w. has_char b',' w ≡ false) parts
    → All IsAddress (collect_brokers parts)
unfolding collect_brokers
collect_brokers-IsAddress [] h = tt
collect_brokers-IsAddress (w ∷ parts) h = elim (Bool-cases (trim w == "")) [
  | inl t ↦ rw t (collect_brokers-IsAddress parts h.1)
  | inr t ↦ rw t ((t, has_char-trim b',' w h.0, trim_idem w), collect_brokers-IsAddress parts h.1)
]

-- Whatever the list, each address that is parsed is not empty, has no comma and no space around it.
pub parse_brokers-IsAddress : (value : String) → All IsAddress (parse_brokers value)
unfolding parse_brokers
parse_brokers-IsAddress value =
    collect_brokers-IsAddress (split_on b',' value) (split_on-All b',' value)

-- Only space.
abbrev pub IsBlank : String → Type 0
IsBlank String.[] = Unit
IsBlank (String.◌∷◌ c s) = (is_space c ≡ true) × IsBlank s

space_no_comma : (c : Char) → is_space c ≡ true → eqb (code c) b',' ≡ false
space_no_comma c h = ground (arith, h)

blank_no_comma : (s : String) → IsBlank s → has_char b',' s ≡ false
unfolding has_char
blank_no_comma String.[] h = refl
blank_no_comma (String.◌∷◌ c s) h = rw (space_no_comma c h.0) (blank_no_comma s h.1)

has_char-concat :
    (s t : String)
    → has_char b',' s ≡ false
    → has_char b',' t ≡ false
    → has_char b',' (concat s t) ≡ false
unfolding has_char
has_char-concat String.[] t h k = rw (nil-append t) k
has_char-concat (String.◌∷◌ c s) t h k =
    rw (cons-append c s t) (ground (arith, h, has_char-concat s t, k))

trim_left-blank : (s t : String) → IsBlank s → trim_left (concat s t) ≡ trim_left t
unfolding trim_left
trim_left-blank String.[] t h = ap trim_left (nil-append t)
trim_left-blank (String.◌∷◌ c s) t h = rw (cons-append c s t) (rw h.0 (trim_left-blank s t h.1))

trim_right-blank : (s : String) → IsBlank s → trim_right s ≡ ""
unfolding trim_right
trim_right-blank String.[] h = refl
trim_right-blank (String.◌∷◌ c s) h = rw (trim_right-blank s h.1) (rw h.0 refl)

trim_right-concat : (s t : String) → IsBlank t → trim_right (concat s t) ≡ trim_right s
unfolding trim_right
trim_right-concat String.[] t h = ap trim_right (nil-append t) ∙ trim_right-blank t h
trim_right-concat (String.◌∷◌ c s) t h = rw (cons-append c s t) (rw (trim_right-concat s t h) refl)

trim_left_blank : (s : String) → IsBlank s → trim_left s ≡ ""
unfolding trim_left
trim_left_blank String.[] h = refl
trim_left_blank (String.◌∷◌ c s) h = rw h.0 (trim_left_blank s h.1)

trim-behind : (s t : String) → IsBlank t → trim (concat s t) ≡ trim s
unfolding trim trim_left trim_right
trim-behind String.[] t h = ap trim (nil-append t) ∙ ap trim_right (trim_left_blank t h)
trim-behind (String.◌∷◌ c s) t h = rw (cons-append c s t) (elim (Bool-cases (is_space c)) [
  | inl space ↦ rw space (trim-behind s t h)
  | inr other ↦ rw other (ap (trim_end c) (trim_right-concat s t h))
])

-- An entry of a broker list: a name, perhaps empty, with space around it.
pub record Entry : Type 0 where
  pub before : String
  pub name : String
  pub behind : String

abbrev pub written : Entry → String
written e = concat e.before (concat e.name e.behind)

pub record IsEntry (e : Entry) : Type 0 where
  pub blank_before : IsBlank e.before
  pub blank_behind : IsBlank e.behind
  pub plain : has_char b',' e.name ≡ false
  pub trimmed : trim e.name ≡ e.name

-- The names that are not empty.
abbrev pub names : List Entry → List String
names [] = []
names (e ∷ es) = let rest = names es in if e.name == "" then rest else e.name ∷ rest

written_plain : (e : Entry) → IsEntry e → has_char b',' (written e) ≡ false
written_plain e h =
    has_char-concat e.before (concat e.name e.behind) (blank_no_comma e.before h.blank_before)
      (has_char-concat e.name e.behind h.plain (blank_no_comma e.behind h.blank_behind))

trim-written : (e : Entry) → IsEntry e → trim (written e) ≡ e.name
unfolding trim
trim-written e h =
    ap trim_right (trim_left-blank e.before (concat e.name e.behind) h.blank_before)
    ∙ trim-behind e.name e.behind h.blank_behind
    ∙ h.trimmed

-- Of entries that are joined by commas, with any space around their names, the names that are not
-- empty are parsed, in their order: no name has a comma, or space around it of its own.
pub parse_brokers-join_with :
    (entries : List Entry)
    → All IsEntry entries
    → parse_brokers (join_with "," (map written entries)) ≡ names entries
unfolding parse_brokers join_with split_on collect_brokers trim trim_left trim_right
parse_brokers-join_with [] h = refl
parse_brokers-join_with (e ∷ []) h =
    rw (split_on_single b',' (written e) (written_plain e h.0)) (rw (trim-written e h.0) refl)
parse_brokers-join_with (e ∷ d ∷ rest) h =
    rw
      (split_on-concat b',' _ (written e) (join_with "," (map written (d ∷ rest))) refl
        (written_plain e h.0))
      (rw (trim-written e h.0) (rw (parse_brokers-join_with (d ∷ rest) h.1) refl))
