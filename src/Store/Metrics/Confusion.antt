-- ===== src/Store/Metrics/Confusion.antt =====
-- The confusion matrix of `ModelMetrics` adds up.
use learn_go_project.Store.Tables.{Tables}
