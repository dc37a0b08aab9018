-- ===== src/Fraudctl.antt =====
-- cmd/fraudctl/main.go: the path that a command asks for, and what is made of the answer.
--
-- The flags, the HTTP client and JSON as text are arguments; `main` prints what `run` returns.
pub mod Paths
pub mod Answers
pub mod Service
use learn_go_project.Prelude.{
  ℕ, String, not, ◌==◌, Option, none, some, List, [], ◌∷◌, ◌++◌, ℤ, pos, leb, concat, trim_slashes,
  if◌then◌else◌,
}
use learn_go_project.Errors.{Error, text, Result, ok, err, with_prefix, ◌>>=◌}
use learn_go_project.HttpApi.Routes.{Http}

-- A flag.FlagSet: its flags with their values.
pub record FlagSet : Type 0 where
  pub ints : List (String × ℤ)
  pub texts : List (String × String)

-- *f, for the flag of a name
unfoldable pub int_flag : String → List (String × ℤ) → ℤ
int_flag name [] = pos 0
int_flag name ((n, value) ∷ rest) = if n == name then value else int_flag name rest

unfoldable pub text_flag : String → List (String × String) → String
text_flag name [] = ""
text_flag name ((n, value) ∷ rest) = if n == name then value else text_flag name rest

-- The flags of fraudctl and of its commands, with their defaults.
abbrev pub global_flags : FlagSet
global_flags = record { ints = []; texts = ("url", "http://localhost:8080") ∷ [] }

abbrev pub list_flags : FlagSet
list_flags = record { ints = ("limit", pos 20) ∷ []; texts = ("action", "") ∷ ("cursor", "") ∷ [] }

abbrev pub stats_flags : FlagSet
stats_flags = record { ints = []; texts = ("model-version", "") ∷ [] }

-- What the client gives: StatusCode, and ReadAll of the body.
pub record Reply : Type 0 where
  pub code : ℕ
  pub body : Result String

pub record Packages (V : Type 0) : Type 0 where
  pub http : Http
  -- FlagSet.Parse: the values that the arguments give, and the arguments that are left
  pub parse_flags : FlagSet → List String → Result (FlagSet × List String)
  -- fmt.Sprint of an int
  pub sprint : ℤ → String
  -- Client.Get
  pub get : String → Result Reply
  -- json.Unmarshal into an `any`, and MarshalIndent
  pub unmarshal : String → Result V
  pub indent : V → String

abbrev pub usage : Error
usage = text "usage: fraudctl [--url URL] <list|show|stats>"

abbrev pub service_returned : Error
service_returned = text "service returned"

module _ {V : Type 0} (packages : Packages V) where
  -- if value != "" { values.Set(key, value) }
  abbrev pub set_value : String → String → List (String × String)
  set_value key value = if not (value == "") then (key, value) ∷ [] else []

  -- the query of `list`
  unfoldable pub list_values : FlagSet → List (String × String)
  unfolding int_flag text_flag
  list_values s =
      ("limit", packages.sprint (int_flag "limit" s.ints))
      ∷ (set_value "action" (text_flag "action" s.texts)
          ++ set_value "cursor" (text_flag "cursor" s.texts))

  unfoldable pub list_path : FlagSet × List String → String
  unfolding list_values
  list_path (s, more) = concat "/v1/transactions?" (packages.http.encode_values (list_values s))

  -- the path of `stats`
  abbrev pub stats_query : String → String
  stats_query version =
      if not (version == "")
      then concat "/v1/model-metrics"
          (concat "?model_version=" (packages.http.query_escape version))
      else "/v1/model-metrics"

  unfoldable pub stats_path : FlagSet × List String → String
  unfolding text_flag
  stats_path (s, more) = stats_query (text_flag "model-version" s.texts)

  -- the path of `show`
  unfoldable pub show_path : List String → Result String
  show_path (id ∷ []) = ok (concat "/v1/transactions/" (packages.http.path_escape id))
  show_path [] = err (text "usage: fraudctl show <transaction-id>")
  show_path (id ∷ other ∷ more) = err (text "usage: fraudctl show <transaction-id>")

  -- the switch on the command
  unfoldable pub command_path : List String → Result String
  unfolding list_path show_path stats_path
  command_path [] = err usage
  command_path (command ∷ arguments) =
      if command == "list"
      then (packages.parse_flags list_flags arguments >>= λ out. ok (list_path out))
      else if command == "show"
      then show_path arguments
      else if command == "stats"
      then (packages.parse_flags stats_flags arguments >>= λ out. ok (stats_path out))
      else err (text "unknown command; use list, show, or stats")

  -- the body, laid out
  unfoldable pub lay_out : String → Result String
  lay_out body = with_prefix "decode response" (packages.unmarshal body) >>= λ value.
      ok (packages.indent value)

  unfoldable pub read_reply : Reply → Result String
  unfolding lay_out
  read_reply reply = do
    body ← reply.body
    if leb 400 reply.code then err service_returned else lay_out body

  -- behind the flags of fraudctl itself
  unfoldable pub run_command : FlagSet × List String → Result String
  unfolding command_path read_reply text_flag
  run_command (s, arguments) = do
    path ← command_path arguments
    reply ← packages.get (concat (trim_slashes (text_flag "url" s.texts)) path)
    read_reply reply

  -- `run`: what is printed, or the error
  unfoldable pub run : List String → Result String
  unfolding run_command
  run arguments = packages.parse_flags global_flags arguments >>= run_command
