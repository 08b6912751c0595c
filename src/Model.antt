-- ===== src/Model.antt =====
-- internal/model/metrics.go: the metric kinds, the names that the agent collects, and the record
-- that agent and server exchange.
--
-- An int64 is its two's complement bit pattern, a number below 2 ^ 64, so that Go's `+` is addition
-- modulo 2 ^ 64. A float64 is its IEEE 754 bit pattern: the program stores, compares to nil and
-- passes on these values, and computes with none.
use go_metrics_stas.Prelude.{
  ℕ, ◌+◌, ◌^◌, ◌%◌, String, Option, List, [], ◌∷◌, ◌++◌, ◌==◌, if◌then◌else◌, eq_iff, ◌≡◌, refl,
  true, false,
}

abbrev pub Int64 : Type 0
Int64 = ℕ

abbrev pub Float64 : Type 0
Float64 = ℕ

-- Go's `a + b` at int64.
abbrev pub add_int64 : Int64 → Int64 → Int64
add_int64 a b = (a + b) % 2 ^ 64

abbrev pub counter : String
counter = "counter"

abbrev pub gauge : String
gauge = "gauge"

abbrev pub metric_poll_count : String
metric_poll_count = "PollCount"

abbrev pub metric_random_value : String
metric_random_value = "RandomValue"

-- `GaugeMetrics`: the names read off `runtime.MemStats`, then `RandomValue`.
abbrev pub gauge_metrics : List String
gauge_metrics =
    "Alloc" ∷ "TotalAlloc" ∷ "Sys" ∷ "Lookups" ∷ "Mallocs" ∷ "Frees" ∷ "HeapAlloc" ∷ "HeapSys"
    ∷ "HeapIdle" ∷ "HeapInuse" ∷ "HeapReleased" ∷ "HeapObjects" ∷ "StackInuse" ∷ "StackSys"
    ∷ "MSpanInuse" ∷ "MSpanSys" ∷ "MCacheInuse" ∷ "MCacheSys" ∷ "BuckHashSys" ∷ "GCSys" ∷ "OtherSys"
    ∷ "NextGC" ∷ "LastGC" ∷ "PauseTotalNs" ∷ "NumGC" ∷ "NumForcedGC" ∷ "GCCPUFraction"
    ∷ metric_random_value ∷ []

abbrev pub counter_metrics : List String
counter_metrics = metric_poll_count ∷ []

abbrev pub all_metrics : List String
all_metrics = gauge_metrics ++ counter_metrics

-- The loop of `GetMetricType` over `CounterMetrics`.
type_among : List String → String → String
type_among [] name = gauge
type_among (metric ∷ rest) name = if metric == name then counter else type_among rest name

unfoldable pub get_metric_type : String → String
unfolding type_among
get_metric_type = type_among counter_metrics

pub record Metrics : Type 0 where
  pub id : String
  pub mtype : String
  pub delta : Option Int64
  pub value : Option Float64
  pub hash : String

-- The two kinds are different texts.
pub counter_of_gauge : (t : String) → (t == gauge) ≡ true → (t == counter) ≡ false
counter_of_gauge t h = rw ((eq_iff t gauge).0 h) refl

pub gauge_of_counter : (t : String) → (t == counter) ≡ true → (t == gauge) ≡ false
gauge_of_counter t h = rw ((eq_iff t counter).0 h) refl

pub empty_of_gauge : (t : String) → (t == gauge) ≡ true → (t == "") ≡ false
empty_of_gauge t h = rw ((eq_iff t gauge).0 h) refl

pub empty_of_counter : (t : String) → (t == counter) ≡ true → (t == "") ≡ false
empty_of_counter t h = rw ((eq_iff t counter).0 h) refl
