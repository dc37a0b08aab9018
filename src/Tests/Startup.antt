-- ===== src/Tests/Startup.antt =====
-- The start of the service at a concrete failure, and the order of signals.
use learn_go_project.Prelude.{String, ◌≡◌, refl, true, false, none, some, [], ◌∷◌, ◌==◌}
use learn_go_project.Errors.{text, Result, ok, err}
use learn_go_project.Float.{Whole, whole, whole_float, Whole-IsIeee}
use learn_go_project.Domain.{FeatureVector}
use learn_go_project.Model.{Artifact, signal, score, feature_value}
use learn_go_project.Model.Order.{swap, IsOrdered, score-reordered}
use learn_go_project.Resources.Balance.{replay}
use learn_go_project.Stream.Clients.{Settings}
use learn_go_project.FraudService.{Packages, run, server_closed}
use learn_go_project.FraudService.Closing.{run-closes}

abbrev artifact : Artifact Whole
artifact = record {
  version = "model-1";
  intercept = whole 0;
  weights = ("is_night", whole 2) ∷ ("card_present", whole 2) ∷ [];
}

abbrev features : FeatureVector Whole
features = ("card_present", whole 1) ∷ ("is_night", whole 1) ∷ []

score-reordered_example :
    ((score
        (record artifact { weights = ("card_present", whole 2) ∷ ("is_night", whole 2) ∷ [] })
        features).1
      ≡ (score artifact features).1)
    × IsOrdered (score artifact features).1
unfolding signal feature_value
score-reordered_example =
    score-reordered Whole-IsIeee artifact (("card_present", whole 2) ∷ ("is_night", whole 2) ∷ [])
      features (swap ("is_night", whole 2) ("card_present", whole 2) [] refl) (refl, (refl, tt))

-- The client of the labels' consumer cannot be made.
abbrev no_labels : Settings → Result (Unit {0})
no_labels s = elim s.subscription [
  | none ↦ ok tt
  | some (group, topic) ↦ elim (group == "fraud-scorer-v1") [
    | true ↦ ok tt
    | false ↦ err (text "no brokers")
  ]
]

abbrev packages : Packages Whole String
packages = record {
  getenv = λ key. "";
  parse_flags = λ o. record o { review = whole 0; escalate = whole 1 };
  unmarshal_level = ok;
  new_pool = λ url. ok tt;
  ping = ok tt;
  migration = ok tt;
  read_file = λ path. ok [];
  decode_artifact = λ bytes. ok artifact;
  new_client = no_labels;
  transactions = λ launch. ok tt;
  labels = λ launch. ok tt;
  outbox = λ launch. ok tt;
  server = λ launch. server_closed;
  wait = λ results. ok tt;
}

run-closes_example : replay (run packages []).1 [] ≡ some []
run-closes_example = run-closes packages
