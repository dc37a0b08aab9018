-- ===== src/Service/Snapshot/Sums.antt =====
-- The counts that the snapshot sums up by a label.
use learn_go_project.Prelude.{ℕ, ◌+◌, String, ◌==◌, List, [], ◌∷◌, ℤ, pos_part, if◌then◌else◌}
use learn_go_project.Service.Snapshot.{Metric, label_value}

module _ {F : Type 0} (truncate : F → ℤ) (label : String) where
  -- What the metrics with a value of the label count together.
  unfoldable pub total_of : String → List (Metric F) → ℕ
  total_of k [] = 0
  total_of k (m ∷ rest) =
      (if label_value m label == k then pos_part (truncate m.counter) else 0) + total_of k rest
