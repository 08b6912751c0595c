-- ===== src/Agent/Collector.antt =====
-- internal/agent/collector.go: `CollectMetrics`. `runtime.ReadMemStats` and the random number are
-- arguments.
pub mod Names
mod Tests
use go_metrics_stas.Prelude.{
  String, Option, none, some, Bool, ◌||◌, List, [], ◌∷◌, ◌==◌, if◌then◌else◌,
}
use go_metrics_stas.Dict.{Dict, put}
use go_metrics_stas.Model.{
  Int64, Float64, add_int64, Metrics, gauge_metrics, metric_poll_count, metric_random_value,
}
use go_metrics_stas.Repository.Mem.{of_gauge, of_counter}

-- The fields of `runtime.MemStats` that are collected, as float64.
pub record MemStats : Type 0 where
  pub alloc : Float64
  pub total_alloc : Float64
  pub sys : Float64
  pub num_gc : Float64
  pub lookups : Float64
  pub mallocs : Float64
  pub frees : Float64
  pub heap_alloc : Float64
  pub heap_sys : Float64
  pub heap_idle : Float64
  pub heap_inuse : Float64
  pub heap_released : Float64
  pub heap_objects : Float64
  pub stack_inuse : Float64
  pub stack_sys : Float64
  pub mspan_inuse : Float64
  pub mspan_sys : Float64
  pub mcache_inuse : Float64
  pub mcache_sys : Float64
  pub buck_hash_sys : Float64
  pub gc_sys : Float64
  pub other_sys : Float64
  pub next_gc : Float64
  pub last_gc : Float64
  pub pause_total_ns : Float64
  pub num_forced_gc : Float64
  pub gc_cpu_fraction : Float64

-- The `switch` over the names.
unfoldable pub stat : MemStats → String → Option Float64
stat st name =
    if name == "Alloc"
    then some st.alloc
    else if name == "TotalAlloc"
    then some st.total_alloc
    else if name == "Sys"
    then some st.sys
    else if name == "NumGC"
    then some st.num_gc
    else if name == "Lookups"
    then some st.lookups
    else if name == "Mallocs"
    then some st.mallocs
    else if name == "Frees"
    then some st.frees
    else if name == "HeapAlloc"
    then some st.heap_alloc
    else if name == "HeapSys"
    then some st.heap_sys
    else if name == "HeapIdle"
    then some st.heap_idle
    else if name == "HeapInuse"
    then some st.heap_inuse
    else if name == "HeapReleased"
    then some st.heap_released
    else if name == "HeapObjects"
    then some st.heap_objects
    else if name == "StackInuse"
    then some st.stack_inuse
    else if name == "StackSys"
    then some st.stack_sys
    else if name == "MSpanInuse"
    then some st.mspan_inuse
    else if name == "MSpanSys"
    then some st.mspan_sys
    else if name == "MCacheInuse"
    then some st.mcache_inuse
    else if name == "MCacheSys"
    then some st.mcache_sys
    else if name == "BuckHashSys"
    then some st.buck_hash_sys
    else if name == "GCSys"
    then some st.gc_sys
    else if name == "OtherSys"
    then some st.other_sys
    else if name == "NextGC"
    then some st.next_gc
    else if name == "LastGC"
    then some st.last_gc
    else if name == "PauseTotalNs"
    then some st.pause_total_ns
    else if name == "NumForcedGC"
    then some st.num_forced_gc
    else if name == "GCCPUFraction"
    then some st.gc_cpu_fraction
    else none

abbrev pub put_gauge : String → Option Float64 → Dict Metrics → Dict Metrics
put_gauge name none metrics = metrics
put_gauge name (some v) metrics = put name (of_gauge name v) metrics

-- One round of the loop.
unfoldable pub collect_name : MemStats → String → Dict Metrics → Dict Metrics
collect_name st name metrics =
    if name == metric_poll_count || name == metric_random_value
    then metrics
    else put_gauge name (stat st name) metrics

unfoldable pub collect_names : MemStats → List String → Dict Metrics → Dict Metrics
collect_names st [] metrics = metrics
collect_names st (name ∷ names) metrics = collect_names st names (collect_name st name metrics)

-- The metrics, and the `PollCount` of the collector after the call.
unfoldable pub collect_metrics : MemStats → Float64 → Int64 → Dict Metrics × Int64
unfolding collect_names
collect_metrics st random poll_count =
    let n = add_int64 poll_count 1 in
    (
      put metric_random_value (of_gauge metric_random_value random) (
          put metric_poll_count (of_counter metric_poll_count n)
            (collect_names st gauge_metrics [])),
      n,
    )
