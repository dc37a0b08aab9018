-- ===== src/Store/Metrics.antt =====
-- `Postgres.ModelMetrics` of internal/store/postgres.go: the counts of the confusion matrix and its
-- ratios. A count is a number of rows, below 2^63, so the sums of two counts do not wrap.
pub mod Confusion
use learn_go_project.Prelude.{
  ℕ, ◌+◌, String, Bool, true, false, not, ◌&&◌, ◌||◌, ◌==◌, Option, none, some, List, [], ◌∷◌, ◌++◌,
  map, keep, pos, eqb, if◌then◌else◌,
}
use learn_go_project.Errors.{Error, wrap, Result, ok, err}
use learn_go_project.Float.{Float64}
use learn_go_project.Domain.{action_none}
use learn_go_project.Store.Tables.{AssessmentRow, LabelRow, Tables}

pub record ModelMetrics (F : Type 0) : Type 0 where
  pub model_version : String
  pub total_assessments : ℕ
  pub labelled : ℕ
  pub true_positive : ℕ
  pub false_positive : ℕ
  pub true_negative : ℕ
  pub false_negative : ℕ
  pub precision : F
  pub recall : F
  pub false_positive_rate : F
  pub label_coverage : F

-- count(*) FILTER (WHERE test)
unfoldable pub count_if : {A : Type 0} → (A → Bool) → List A → ℕ
count_if test [] = 0
count_if test (a ∷ rest) = (if test a then 1 else 0) + count_if test rest

-- a row of the join: an assessment, and a label of its transaction unless it has none
abbrev pub Joined : Type 0 → Type 0
Joined F = AssessmentRow F × Option LabelRow

module _ {F : Type 0} where
  unfoldable pub matches : AssessmentRow F → List LabelRow → List (Joined F)
  matches a [] = (a, none) ∷ []
  matches a (l ∷ ls) = map (λ x. (a, some x)) (l ∷ ls)

  -- LEFT JOIN fraud_labels USING (transaction_id)
  unfoldable pub left_join : List LabelRow → List (AssessmentRow F) → List (Joined F)
  unfolding matches
  left_join labels [] = []
  left_join labels (a ∷ rest) =
      matches a (keep (λ l. l.transaction_id == a.transaction_id) labels) ++ left_join labels rest

  abbrev pub of_version : String → AssessmentRow F → Bool
  of_version version a = version == "" || a.model_version == version

  abbrev pub is_flagged : AssessmentRow F → Bool
  is_flagged a = not (a.recommended_action == action_none)

  -- The tests of the five filtered counts; one of a column that is NULL does not hold.
  unfoldable pub is_labelled : Joined F → Bool
  is_labelled (a, none) = false
  is_labelled (a, some l) = true

  unfoldable pub is_true_positive : Joined F → Bool
  is_true_positive (a, none) = false
  is_true_positive (a, some l) = l.is_fraud && is_flagged a

  unfoldable pub is_false_positive : Joined F → Bool
  is_false_positive (a, none) = false
  is_false_positive (a, some l) = not l.is_fraud && is_flagged a

  unfoldable pub is_true_negative : Joined F → Bool
  is_true_negative (a, none) = false
  is_true_negative (a, some l) = not l.is_fraud && a.recommended_action == action_none

  unfoldable pub is_false_negative : Joined F → Bool
  is_false_negative (a, none) = false
  is_false_negative (a, some l) = l.is_fraud && a.recommended_action == action_none

  -- The rows that the query counts.
  abbrev pub selected : String → Tables F → List (Joined F)
  selected version db = keep (λ j. of_version version j.0) (left_join db.labels db.assessments)

module _ {F : Type 0} ⦃f : Float64 F⦄ where
  unfoldable pub ratio : ℕ → ℕ → F
  ratio numerator denominator =
      if eqb denominator 0
      then f.of_int (pos 0)
      else f.div (f.of_int (pos numerator)) (f.of_int (pos denominator))

  -- the metrics of the rows that are counted
  unfoldable pub measure : String → List (Joined F) → ModelMetrics F
  unfolding ratio
  measure version rows =
      let tp = count_if is_true_positive rows in
      let fp = count_if is_false_positive rows in
      let tn = count_if is_true_negative rows in
      let fn = count_if is_false_negative rows in
      record {
        model_version = version;
        total_assessments = count_if (λ _. true) rows;
        labelled = count_if is_labelled rows;
        true_positive = tp;
        false_positive = fp;
        true_negative = tn;
        false_negative = fn;
        precision = ratio tp (tp + fp);
        recall = ratio tp (tp + fn);
        false_positive_rate = ratio fp (fp + tn);
        label_coverage = ratio (count_if is_labelled rows) (count_if (λ _. true) rows);
      }

  -- `ModelMetrics`, with the error of the query, if any
  unfoldable pub model_metrics : Option Error → String → Tables F → Result (ModelMetrics F)
  unfolding measure
  model_metrics (some e) version db = err (wrap "calculate model metrics" e)
  model_metrics none version db = ok (measure version (selected version db))
