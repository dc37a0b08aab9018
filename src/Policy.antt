-- ===== src/Policy.antt =====
-- internal/policy/policy.go: the thresholds, and the action that a score calls for.
pub mod Bands
use learn_go_project.Prelude.{String, Bool, ◌||◌, pos, if◌then◌else◌}
use learn_go_project.Errors.{Error, text, Result, ok, err}
use learn_go_project.Float.{Float64, is_nan}
use learn_go_project.Domain.{action_none, action_review, action_escalate}

pub record Thresholds (F : Type 0) : Type 0 where
  pub review : F
  pub escalate : F

module _ {F : Type 0} ⦃f : Float64 F⦄ where
  unfoldable pub new : F → F → Result (Thresholds F)
  new review escalate =
      if is_nan review || is_nan escalate
      then err (text "thresholds must be numbers")
      else if f.lt review (f.of_int (pos 0))
          || f.lt (f.of_int (pos 1)) escalate
          || f.le escalate review
      then err (text "thresholds must satisfy 0 <= review < escalate <= 1")
      else ok (record { review = review; escalate = escalate })

  unfoldable pub decide : Thresholds F → F → String
  decide t score =
      if f.le t.escalate score
      then action_escalate
      else if f.le t.review score
      then action_review
      else action_none
