-- ===== src/Tests/Web.antt =====
-- A multiplexer and an encoding of queries that meet the laws, for runs on concrete inputs.
use Prim.Native.Char.{code}
use text.Mathlib.TextLemmas.{nil-append, cons-append, append_assoc}
use learn_go_project.Prelude.{
  String, ◌≡◌, refl, sym, ◌∙◌, ap, Bool, true, false, not, ◌||◌, ◌==◌, Option, none, some, List, [],
  ◌∷◌, eqb, concat, has_char, cut_at, cut_at-concat, concat_one, if◌then◌else◌, arith,
}
use learn_go_project.HttpApi.Routes.{Http, IsHttp, Found, routes, patterns, value_of, no_value}

-- What stands behind a prefix.
pub strip : String → String → Option String
strip String.[] s = some s
strip (String.◌∷◌ c p) String.[] = none
strip (String.◌∷◌ c p) (String.◌∷◌ d s) =
    let rest = strip p s in if eqb (code c) (code d) then rest else none

pub strip-concat : (p s : String) → strip p (concat p s) ≡ some s
unfolding strip
strip-concat String.[] s = ap some (nil-append s)
strip-concat (String.◌∷◌ c p) s = rw (cons-append c p s) (rw (strip-concat p s) (ground arith))

-- Two texts differ at a place that both have.
differs : String → String → Bool
differs String.[] s = false
differs (String.◌∷◌ c p) String.[] = false
differs (String.◌∷◌ c p) (String.◌∷◌ d s) = not (eqb (code c) (code d)) || differs p s

strip-of_differs : (p s t : String) → differs p s ≡ true → strip p (concat s t) ≡ none
unfolding strip differs
strip-of_differs String.[] s t h = ground arith
strip-of_differs (String.◌∷◌ c p) String.[] t h = ground arith
strip-of_differs (String.◌∷◌ c p) (String.◌∷◌ d s) t h =
    rw (cons-append d s t) (ground (arith, strip-of_differs p s t))

-- A text with a dot before each character and a semicolon behind it.
pub write_text : String → String
write_text String.[] = ";"
write_text (String.◌∷◌ c s) = String.◌∷◌ "." (String.◌∷◌ c (write_text s))

-- Such a text, and what stands behind it.
pub read_text : String → String × String
read_text String.[] = ("", "")
read_text (String.◌∷◌ m String.[]) = ("", "")
read_text (String.◌∷◌ m (String.◌∷◌ c s)) =
    let rest = read_text s in
    if eqb (code m) b'.' then (String.◌∷◌ c rest.0, rest.1) else ("", String.◌∷◌ c s)

read_text-write_text : (s t : String) → read_text (concat (write_text s) t) ≡ (s, t)
unfolding read_text write_text
read_text-write_text String.[] t = rw (concat_one ";" t) (ended t)
  where
    ended : (t : String) → read_text (String.◌∷◌ ";" t) ≡ ("", t)
    ended String.[] = refl
    ended (String.◌∷◌ c s) = refl
read_text-write_text (String.◌∷◌ c s) t =
    rw (cons-append "." (String.◌∷◌ c (write_text s)) t)
      (rw (cons-append c (write_text s) t) (rw (read_text-write_text s t) refl))

-- A mark for each pair, a semicolon, and the pairs.
pub marks : List (String × String) → String
marks [] = ""
marks (v ∷ rest) = String.◌∷◌ "x" (marks rest)

pub write_pairs : List (String × String) → String
write_pairs [] = ""
write_pairs ((k, v) ∷ rest) = concat (write_text k) (concat (write_text v) (write_pairs rest))

pub read_pairs : String → String → List (String × String)
read_pairs String.[] s = []
read_pairs (String.◌∷◌ m ms) s =
    let key = read_text s in let value = read_text key.1 in (key.0, value.0) ∷ read_pairs ms value.1

read_pairs-write_pairs :
    (values : List (String × String)) → read_pairs (marks values) (write_pairs values) ≡ values
unfolding marks write_pairs read_pairs
read_pairs-write_pairs [] = refl
read_pairs-write_pairs ((k, v) ∷ rest) =
    rw (read_text-write_text k (concat (write_text v) (write_pairs rest))) (
      rw (read_text-write_text v (write_pairs rest))
        (ap (λ (vs : List (String × String)). (k, v) ∷ vs) (read_pairs-write_pairs rest)))

marks_lem : (values : List (String × String)) → has_char b';' (marks values) ≡ false
unfolding marks has_char
marks_lem [] = refl
marks_lem (v ∷ rest) = marks_lem rest

abbrev encode_values : List (String × String) → String
encode_values values = concat (marks values) (concat ";" (write_pairs values))

abbrev read_body : String × Option String → List (String × String)
read_body (ms, none) = []
read_body (ms, some s) = read_pairs ms s

abbrev version : Option String → String → String → String
version none q key = value_of key (read_body (cut_at b';' q))
version (some value) q key = if key == "model_version" then value else ""

abbrev query_value : String → String → String
query_value q = version (strip "model_version=" q) q

no_version :
    (values : List (String × String)) → strip "model_version=" (encode_values values) ≡ none
unfolding strip marks write_pairs
no_version [] = refl
no_version (v ∷ rest) = rw (cons-append "x" (marks rest) (concat ";" (write_pairs (v ∷ rest)))) refl

keeps_values :
    (values : List (String × String)) (key : String)
    → query_value (encode_values values) key ≡ value_of key values
keeps_values values key =
    ap (λ (o : Option String). version o (encode_values values) key) (no_version values)
    ∙ ap (λ (b : String × Option String). value_of key (read_body b))
        (cut_at-concat b';' ";" (marks values) (write_pairs values) refl (marks_lem values))
    ∙ ap (value_of key) (read_pairs-write_pairs values)

abbrev is_registered : String → List String → Bool
is_registered p [] = false
is_registered p (q ∷ rest) = q == p || is_registered p rest

abbrev query_of : Option String → String → String
query_of none = no_value
query_of (some q) = query_value q

abbrev if_registered : List String → Found → Option Found
if_registered table found = if is_registered found.pattern table then some found else none

abbrev found_path : List String → String × Option String → Option Found
found_path table (path, query) =
    if_registered table
      (record { pattern = concat "GET " path; path_value = no_value; query = query_of query })

abbrev found : List String → String → Option String → Option Found
found table target none = found_path table (cut_at b'?' target)
found table target (some segment) = if_registered table (record {
  pattern = "GET /v1/transactions/{id}";
  path_value = λ name. if name == "id" then segment else "";
  query = no_value;
})

-- A multiplexer that knows one wildcard.
abbrev pub http : Http
http = record {
  find = λ table method target. found table target (strip "/v1/transactions/" target);
  query_value = query_value;
  encode_values = encode_values;
  query_escape = λ value. value;
  path_escape = λ segment. segment;
}

-- A path with a query that is not below the wildcard.
finds_literal :
    (path query : String)
    → differs "/v1/transactions/" (concat path "?") ≡ true
    → has_char b'?' path ≡ false
    → is_registered (concat "GET " path) (patterns routes) ≡ true
    → http.find (patterns routes) "GET" (concat path (concat "?" query))
      ≡ some (record {
        pattern = concat "GET " path;
        path_value = no_value;
        query = query_value query;
      })
finds_literal path query other plain registered =
    let target = concat path (concat "?" query) in
    let outside : strip "/v1/transactions/" target ≡ none =
      ap (strip "/v1/transactions/") (sym (append_assoc path "?" query))
      ∙ strip-of_differs "/v1/transactions/" (concat path "?") query other in
    ap (found (patterns routes) target) outside
    ∙ ap (found_path (patterns routes)) (cut_at-concat b'?' "?" path query refl plain)
    ∙ rw registered refl

pub http-IsHttp : IsHttp http
unfolding routes strip cut_at has_char differs
http-IsHttp = record {
  finds_path = (refl, (refl, (refl, (refl, (refl, (refl, tt))))));
  finds_query = λ query. (
    finds_literal "/healthz" query refl refl refl,
    (
      finds_literal "/readyz" query refl refl refl,
      (
        finds_literal "/v1/transactions" query refl refl refl,
        (
          finds_literal "/v1/model-metrics" query refl refl refl,
          (
            finds_literal "/v1/pipeline-metrics" query refl refl refl,
            (finds_literal "/metrics" query refl refl refl, tt),
          ),
        ),
      ),
    ),
  );
  finds_segment = λ segment plain.
      ap (found (patterns routes) (concat "/v1/transactions/" segment))
        (strip-concat "/v1/transactions/" segment);
  keeps_values = keeps_values;
  keeps_value = λ value key.
      ap (λ (o : Option String). version o (concat "model_version=" value) key)
        (strip-concat "model_version=" value);
}
