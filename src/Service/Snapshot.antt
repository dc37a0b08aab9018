-- ===== src/Service/Snapshot.antt =====
-- `PipelineSnapshot` of internal/service/pipeline_metrics.go: the counters and the histogram of the
-- registry, summed up for the dashboard. What the registry gathers is an argument, in the shape of
-- the Prometheus client's data.
pub mod Sums
use learn_go_project.Prelude.{
  int64, add_int64, ℕ, ◌+◌, ◌-◌, ◌%◌, ◌^◌, String, Bool, not, ◌&&◌, ◌||◌, ◌==◌, List, [], ◌∷◌, map,
  ℤ, ltb_ℤ, pos, negsuc, eqb, ltb, if◌then◌else◌,
}
use learn_go_project.Errors.{Result, ok, ◌>>=◌}
use learn_go_project.Float.{Float64, is_nan}

-- dto.Histogram: the buckets by their upper bounds, with cumulative counts
pub record Histogram (F : Type 0) : Type 0 where
  pub sample_count : ℕ
  pub sample_sum : F
  pub buckets : List (F × ℕ)

-- dto.Metric
pub record Metric (F : Type 0) : Type 0 where
  pub labels : List (String × String)
  pub counter : F
  pub histogram : Histogram F

-- dto.MetricFamily
pub record Family (F : Type 0) : Type 0 where
  pub name : String
  pub metrics : List (Metric F)

-- A map from texts to counts, by its entries in the order in which they were set first.
abbrev pub Counts : Type 0
Counts = List (String × ℤ)

-- `PipelineMetrics`
pub record PipelineMetrics (F : Type 0) : Type 0 where
  pub processed : Counts
  pub duplicates : Counts
  pub failures : Counts
  pub actions : Counts
  pub latency_count : ℤ
  pub latency_sum_seconds : F
  pub latency_avg_seconds : F
  pub latency_p50_seconds : F
  pub latency_p95_seconds : F
  pub latency_p99_seconds : F
  pub outbox_published : ℤ
  pub outbox_failures : ℤ

-- into[key] += n
unfoldable pub add_count : String → ℤ → Counts → Counts
unfolding add_int64
add_count key n [] = (key, add_int64 (pos 0) n) ∷ []
add_count key n ((k, m) ∷ rest) =
    let later = add_count key n rest in
    if k == key then (k, add_int64 m n) ∷ rest else (k, m) ∷ later

-- counts[key]
unfoldable pub count_of : String → Counts → ℤ
count_of key [] = pos 0
count_of key ((k, m) ∷ rest) = if k == key then m else count_of key rest

unfoldable pub find_label : String → List (String × String) → String
find_label name [] = ""
find_label name ((k, v) ∷ rest) = if k == name then v else find_label name rest

module _ {F : Type 0} where
  -- `labelValue`
  abbrev pub label_value : Metric F → String → String
  label_value m name = find_label name m.labels

module _ {F : Type 0} (truncate : F → ℤ) where
  -- `sumCounter`, with int64 of a float64 as `truncate`
  unfoldable pub sum_from : ℤ → List (Metric F) → ℤ
  unfolding add_int64
  sum_from total [] = total
  sum_from total (m ∷ rest) = sum_from (add_int64 total (truncate m.counter)) rest

  unfoldable pub sum_counter : Family F → ℤ
  unfolding sum_from
  sum_counter family = sum_from (pos 0) family.metrics

  -- `sumCounterByLabel`
  unfoldable pub sum_by_label : String → List (Metric F) → Counts → Counts
  unfolding add_count find_label
  sum_by_label label [] into = into
  sum_by_label label (m ∷ rest) into =
      sum_by_label label rest (add_count (label_value m label) (truncate m.counter) into)

module _ {F : Type 0} ⦃f : Float64 F⦄ where
  -- cumulative[bound] += n, on uint64
  unfoldable pub add_bucket : F → ℕ → List (F × ℕ) → List (F × ℕ)
  add_bucket bound n [] = (bound, n % 2 ^ 64) ∷ []
  add_bucket bound n ((b, m) ∷ rest) =
      let later = add_bucket bound n rest in
      if f.eq b bound then (b, (m + n) % 2 ^ 64) ∷ rest else (b, m) ∷ later

  unfoldable pub add_buckets : List (F × ℕ) → List (F × ℕ) → List (F × ℕ)
  unfolding add_bucket
  add_buckets [] cumulative = cumulative
  add_buckets ((b, n) ∷ rest) cumulative = add_buckets rest (add_bucket b n cumulative)

  -- The buckets of all histograms of a family, and the number of their samples.
  unfoldable pub merge_histograms : List (Metric F) → List (F × ℕ) → ℕ → List (F × ℕ) × ℕ
  unfolding add_buckets
  merge_histograms [] cumulative count = (cumulative, count)
  merge_histograms (m ∷ rest) cumulative count =
      merge_histograms rest (add_buckets m.histogram.buckets cumulative)
        ((count + m.histogram.sample_count) % 2 ^ 64)

  -- cumulative[bound]
  unfoldable pub bucket_of : F → List (F × ℕ) → ℕ
  bucket_of bound [] = 0
  bucket_of bound ((b, n) ∷ rest) = if f.eq b bound then n else bucket_of bound rest

  -- sort.Float64s, by which a NaN comes first
  abbrev pub before : F → F → Bool
  before x y = f.lt x y || (is_nan x && not (is_nan y))

  unfoldable pub insert_bound : F → List F → List F
  insert_bound x [] = x ∷ []
  insert_bound x (y ∷ rest) =
      let later = insert_bound x rest in if before y x then y ∷ later else x ∷ y ∷ rest

  unfoldable pub sort_bounds : List F → List F
  unfolding insert_bound
  sort_bounds [] = []
  sort_bounds (x ∷ rest) = insert_bound x (sort_bounds rest)

  -- The loop over the bounds: the bound and the count before, and the bounds that are left.
  unfoldable pub interpolate : List (F × ℕ) → F → F → F → List F → F
  unfolding bucket_of
  interpolate cumulative target prev_bound prev_count [] = prev_bound
  interpolate cumulative target prev_bound prev_count (bound ∷ rest) =
      let bucket_count = f.of_int (pos (bucket_of bound cumulative)) in
      let later = interpolate cumulative target bound bucket_count rest in
      if f.le target bucket_count
      then if f.is_infinite bound
        then prev_bound
        else if f.eq bucket_count prev_count
        then bound
        else f.add prev_bound (
            f.div (f.mul (f.sub bound prev_bound) (f.sub target prev_count))
              (f.sub bucket_count prev_count))
      else later

  -- `latencyQuantile`
  unfoldable pub latency_quantile : Family F → F → F
  unfolding merge_histograms sort_bounds interpolate
  latency_quantile family q =
      let (cumulative, count) = merge_histograms family.metrics [] 0 in
      if eqb count 0
      then f.of_int (pos 0)
      else interpolate cumulative (f.mul q (f.of_int (pos count))) (f.of_int (pos 0))
          (f.of_int (pos 0)) (sort_bounds (map (λ b. b.0) cumulative))

  -- The loop of `populateLatency`.
  unfoldable pub add_latency : List (Metric F) → PipelineMetrics F → PipelineMetrics F
  unfolding add_int64 int64
  add_latency [] metrics = metrics
  add_latency (m ∷ rest) metrics = add_latency rest (record metrics {
    latency_count = add_int64 metrics.latency_count (int64 m.histogram.sample_count);
    latency_sum_seconds = f.add metrics.latency_sum_seconds m.histogram.sample_sum;
  })

  abbrev pub with_average : PipelineMetrics F → PipelineMetrics F
  with_average metrics =
      if ltb_ℤ (pos 0) metrics.latency_count
      then record metrics {
        latency_avg_seconds = f.div metrics.latency_sum_seconds (f.of_int metrics.latency_count);
      }
      else metrics

  -- `populateLatency`
  unfoldable pub populate_latency : Family F → PipelineMetrics F → PipelineMetrics F
  unfolding add_latency latency_quantile
  populate_latency family metrics = record (with_average (add_latency family.metrics metrics)) {
    latency_p50_seconds = latency_quantile family (f.div (f.of_int (pos 50)) (f.of_int (pos 100)));
    latency_p95_seconds = latency_quantile family (f.div (f.of_int (pos 95)) (f.of_int (pos 100)));
    latency_p99_seconds = latency_quantile family (f.div (f.of_int (pos 99)) (f.of_int (pos 100)));
  }

  -- No counts yet.
  abbrev pub no_pipeline_metrics : PipelineMetrics F
  no_pipeline_metrics = record {
    processed = [];
    duplicates = [];
    failures = [];
    actions = [];
    latency_count = pos 0;
    latency_sum_seconds = f.of_int (pos 0);
    latency_avg_seconds = f.of_int (pos 0);
    latency_p50_seconds = f.of_int (pos 0);
    latency_p95_seconds = f.of_int (pos 0);
    latency_p99_seconds = f.of_int (pos 0);
    outbox_published = pos 0;
    outbox_failures = pos 0;
  }

module _ {F : Type 0} ⦃f : Float64 F⦄ (truncate : F → ℤ) where
  -- the switch on the name of a family
  unfoldable pub read_family : Family F → PipelineMetrics F → PipelineMetrics F
  unfolding sum_by_label sum_counter populate_latency
  read_family family m =
      if family.name == "fraud_events_processed_total"
      then record m { processed = sum_by_label truncate "type" family.metrics m.processed }
      else if family.name == "fraud_duplicate_events_total"
      then record m { duplicates = sum_by_label truncate "type" family.metrics m.duplicates }
      else if family.name == "fraud_processing_failures_total"
      then record m { failures = sum_by_label truncate "type" family.metrics m.failures }
      else if family.name == "fraud_recommended_actions_total"
      then record m { actions = sum_by_label truncate "action" family.metrics m.actions }
      else if family.name == "fraud_assessment_duration_seconds"
      then populate_latency family m
      else if family.name == "fraud_outbox_published_total"
      then record m { outbox_published = sum_counter truncate family }
      else if family.name == "fraud_outbox_failures_total"
      then record m { outbox_failures = sum_counter truncate family }
      else m

  unfoldable pub read_families : List (Family F) → PipelineMetrics F → PipelineMetrics F
  unfolding read_family
  read_families [] m = m
  read_families (family ∷ rest) m = read_families rest (read_family family m)

  -- `PipelineSnapshot`, of what the registry gathers
  unfoldable pub pipeline_snapshot : Result (List (Family F)) → Result (PipelineMetrics F)
  unfolding read_families
  pipeline_snapshot gathered =
      gathered >>= λ families. ok (read_families families no_pipeline_metrics)
