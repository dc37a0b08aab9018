-- ===== src/Service/Metrics.antt =====
-- The counters of internal/service/metrics.go. A counter with a label is the function from the
-- label's value to the count; of the latency histogram the number of observations is kept.
use learn_go_project.Prelude.{ℕ, ◌+◌, String, ◌==◌, if◌then◌else◌}

pub record Metrics : Type 0 where
  pub processed : String → ℕ
  pub duplicates : String → ℕ
  pub failures : String → ℕ
  pub actions : String → String → ℕ
  pub latency_count : ℕ
  pub outbox_published : ℕ
  pub outbox_failures : ℕ

-- `NewMetrics`
abbrev pub new_metrics : Metrics
new_metrics = record {
  processed = λ _. 0;
  duplicates = λ _. 0;
  failures = λ _. 0;
  actions = λ _ _. 0;
  latency_count = 0;
  outbox_published = 0;
  outbox_failures = 0;
}

-- WithLabelValues(label).Inc()
abbrev pub inc : String → (String → ℕ) → String → ℕ
inc label counter k = if k == label then counter k + 1 else counter k

abbrev pub inc_failures : String → Metrics → Metrics
inc_failures label m = record m { failures = inc label m.failures }

abbrev pub inc_duplicates : String → Metrics → Metrics
inc_duplicates label m = record m { duplicates = inc label m.duplicates }

abbrev pub inc_processed : String → Metrics → Metrics
inc_processed label m = record m { processed = inc label m.processed }

-- the counter of recommended actions and the histogram, behind a processed transaction
abbrev pub observe : String → String → Metrics → Metrics
observe action version m = record m {
  actions = λ a v. if a == action then inc version (m.actions a) v else m.actions a v;
  latency_count = m.latency_count + 1;
}
