-- ===== src/Model.antt =====
-- internal/model/logistic.go: the logistic model and its signals.
--
-- The map of weights is a list of pairs, in the order in which one `range` over the map happens to
-- visit it. `sort.SliceStable` is an insertion sort by the same comparison.
pub mod Order
use learn_go_project.Prelude.{
  String, text_lt, Bool, not, ◌||◌, ◌==◌, List, [], ◌∷◌, ◌++◌, pos, length, eqb, if◌then◌else◌,
}
use learn_go_project.Errors.{text, Result, ok, err, with_prefix, ◌>>=◌}
use learn_go_project.Float.{Float64}
use learn_go_project.Domain.{FeatureVector, Signal}
use learn_go_project.Platform.{Bytes}

pub record Artifact (F : Type 0) : Type 0 where
  pub version : String
  pub intercept : F
  pub weights : List (String × F)

-- `New`
unfoldable pub new : {F : Type 0} → Artifact F → Result (Artifact F)
new a =
    if a.version == "" || eqb (length a.weights) 0
    then err (text "model artifact requires a version and weights")
    else ok a

-- `Load`, of the file's content or the error of reading it
unfoldable pub load :
    {F : Type 0} → (Bytes → Result (Artifact F)) → Result Bytes → Result (Artifact F)
unfolding new
load decode file = do
  bytes ← with_prefix "read model artifact" file
  artifact ← with_prefix "decode model artifact" (decode bytes)
  new artifact

module _ {F : Type 0} ⦃f : Float64 F⦄ where
  -- features[feature], which is 0 for a name that is not there
  unfoldable pub feature_value : String → FeatureVector F → F
  feature_value name [] = f.of_int (pos 0)
  feature_value name ((key, x) ∷ rest) = if key == name then x else feature_value name rest

  unfoldable pub signal : FeatureVector F → String × F → Signal F
  unfolding feature_value
  signal features (feature, weight) =
      let value = feature_value feature features in
      record { feature = feature; value = value; contribution = f.mul value weight }

  -- the loop over the weights: the logit and the signals so far
  unfoldable pub score_loop :
      FeatureVector F → List (String × F) → F → List (Signal F) → F × List (Signal F)
  unfolding signal
  score_loop features [] logit signals = (logit, signals)
  score_loop features (w ∷ ws) logit signals =
      let s = signal features w in
      score_loop features ws (f.add logit s.contribution) (signals ++ s ∷ [])

  -- the comparison of the sort: by falling magnitude, ties by name
  unfoldable pub before : Signal F → Signal F → Bool
  before s t =
      let a = f.abs s.contribution in
      let b = f.abs t.contribution in
      if not (f.eq a b) then f.lt b a else text_lt s.feature t.feature

  unfoldable pub insert_signal : Signal F → List (Signal F) → List (Signal F)
  unfolding before
  insert_signal s [] = s ∷ []
  insert_signal s (t ∷ ts) = if before t s then t ∷ insert_signal s ts else s ∷ t ∷ ts

  unfoldable pub sort_signals : List (Signal F) → List (Signal F)
  unfolding insert_signal
  sort_signals [] = []
  sort_signals (s ∷ ss) = insert_signal s (sort_signals ss)

  -- `Score`
  unfoldable pub score : Artifact F → FeatureVector F → F × List (Signal F)
  unfolding score_loop sort_signals
  score m features =
      let (logit, signals) = score_loop features m.weights m.intercept [] in
      (
        f.div (f.of_int (pos 1)) (f.add (f.of_int (pos 1)) (f.exp (f.neg logit))),
        sort_signals signals,
      )
