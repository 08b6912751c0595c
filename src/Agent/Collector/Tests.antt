-- ===== src/Agent/Collector/Tests.antt =====
-- A collection of numbers that tell the fields apart.
use go_metrics_stas.Prelude.{◌≡◌, refl, some, is_some}
use go_metrics_stas.Dict.{get, put}
use go_metrics_stas.Model.{add_int64, all_metrics, metric_poll_count, metric_random_value}
use go_metrics_stas.Repository.Mem.{of_gauge, of_counter}
use go_metrics_stas.Agent.Collector.{MemStats, collect_metrics, collect_name, stat}
use go_metrics_stas.Agent.Collector.Names.{among, collect_metrics_lem}

abbrev stats : MemStats
stats = record {
  alloc = 1;
  total_alloc = 2;
  sys = 3;
  num_gc = 4;
  lookups = 5;
  mallocs = 6;
  frees = 7;
  heap_alloc = 8;
  heap_sys = 9;
  heap_idle = 10;
  heap_inuse = 11;
  heap_released = 12;
  heap_objects = 13;
  stack_inuse = 14;
  stack_sys = 15;
  mspan_inuse = 16;
  mspan_sys = 17;
  mcache_inuse = 18;
  mcache_sys = 19;
  buck_hash_sys = 20;
  gc_sys = 21;
  other_sys = 22;
  next_gc = 23;
  last_gc = 24;
  pause_total_ns = 25;
  num_forced_gc = 26;
  gc_cpu_fraction = 27;
}

collect_metrics_lem_example :
    (is_some (get "Sys" (collect_metrics stats 50 6).0) ≡ among all_metrics "Sys")
    × (get metric_poll_count (collect_metrics stats 50 6).0
        ≡ some (of_counter metric_poll_count (add_int64 6 1)))
    × (get metric_random_value (collect_metrics stats 50 6).0
        ≡ some (of_gauge metric_random_value 50))
collect_metrics_lem_example = collect_metrics_lem stats "Sys" 50 6

collected : get "NumGC" (collect_metrics stats 50 6).0 ≡ some (of_gauge "NumGC" 4)
unfolding collect_metrics collect_name stat get put
collected = refl
