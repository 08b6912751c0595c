-- ===== src/Service/Tests.antt =====
-- Runs of `metricsService` over `MemStorage`, and the theorems at them.
use go_metrics_stas.Prelude.{
  String, ◌≡◌, ◌≢◌, refl, none, List, [], ◌∷◌, if◌then◌else◌, ◌==◌, arith, eq_iff, or_else,
}
use go_metrics_stas.Dict.{get, put}
use go_metrics_stas.Model.{Metrics, add_int64}
use go_metrics_stas.Outcome.{ok, err, missing_delta, invalid_metric_id, metric_not_found}
use go_metrics_stas.Repository.Batch.{deltas, last_value, counted}
use go_metrics_stas.Repository.Mem
use go_metrics_stas.Repository.Mem.{MemStorage, of_gauge, of_counter, found, or_zero}
use go_metrics_stas.Repository.Mem.Lawfulness.{mem_storage, mem_storage-Lawful}
use go_metrics_stas.Service.{
  update_gauge, update_counter, get_gauge, get_counter, update_item, update_batch,
}
use go_metrics_stas.Repository.Pg.Refines.{pg_storage, checked_storage}
use go_metrics_stas.Repository.Pg.Sample.{calm_db, calm_mem, simulates, mixed_calls}
use go_metrics_stas.Service.OverPg.{serve_all, serve_all-Simulates}
use go_metrics_stas.Service.Laws.{get-update_gauge, get-update_counter, reads_exact}
use go_metrics_stas.Service.Batch.{outcome, first_fault, applied, update_batch_prefix}

abbrev before : MemStorage
before = record { gauges = ("b", 9) ∷ []; counters = ("a", 40) ∷ [] }

a_ne_empty : ◌≢◌ {A = String} "a" ""
a_ne_empty = ground (arith, eq_iff "a" "")

abbrev stored : MemStorage
stored = (update_counter mem_storage "a" 2 before).1

reads_total :
    ((update_counter mem_storage "a" 2 before).0
      ≡ ok (add_int64 (or_zero (mem_storage-Lawful.counter_at before "a")) 2))
    × ((j : String)
        → (get_counter mem_storage j stored).0 ≡ (
            if "a" == j
            then ok (add_int64 (or_zero (mem_storage-Lawful.counter_at before "a")) 2)
            else (get_counter mem_storage j before).0))
    × ((j : String) → (get_gauge mem_storage j stored).0 ≡ (get_gauge mem_storage j before).0)
reads_total = get-update_counter mem_storage mem_storage-Lawful "a" 2 before a_ne_empty

total : (update_counter mem_storage "a" 2 before).0 ≡ ok 42
unfolding update_counter Mem.update_counter Mem.get_counter get put
total = refl

reads_gauge :
    ((update_gauge mem_storage "a" 2 before).0 ≡ ok tt)
    × ((j : String)
        → (get_gauge mem_storage j (update_gauge mem_storage "a" 2 before).1).0
          ≡ (if "a" == j then ok 2 else (get_gauge mem_storage j before).0))
    × ((j : String)
        → (get_counter mem_storage j (update_gauge mem_storage "a" 2 before).1).0
          ≡ (get_counter mem_storage j before).0)
reads_gauge = get-update_gauge mem_storage mem_storage-Lawful "a" 2 before a_ne_empty

reads_both :
    (get_gauge mem_storage "z" before ≡ (
      (if "z" == ""
          then err invalid_metric_id
          else found metric_not_found (mem_storage-Lawful.gauge_at before "z")),
      before,
    ))
    × (get_counter mem_storage "z" before ≡ (
      (if "z" == ""
          then err invalid_metric_id
          else found metric_not_found (mem_storage-Lawful.counter_at before "z")),
      before,
    ))
reads_both = reads_exact mem_storage mem_storage-Lawful "z" before

-- The second item has no delta: the first is applied, the third is not.
abbrev items : List Metrics
items = of_counter "a" 2 ∷ record (of_counter "b" 1) { delta = none } ∷ of_gauge "c" 3 ∷ []

fails : (update_batch mem_storage items before).0 ≡ err missing_delta
unfolding update_batch update_item
fails = refl

update_batch_prefix_example :
    ((update_batch mem_storage items before).0 ≡ outcome (first_fault items))
    × (mem_storage-Lawful.counter_at (update_batch mem_storage items before).1 "a"
        ≡ counted (mem_storage-Lawful.counter_at before "a") (deltas "a" (applied items)))
    × (mem_storage-Lawful.gauge_at (update_batch mem_storage items before).1 "a"
        ≡ or_else (last_value "a" (applied items)) (mem_storage-Lawful.gauge_at before "a"))
update_batch_prefix_example = update_batch_prefix mem_storage mem_storage-Lawful items before "a"

mixed_calls-Simulates :
    serve_all pg_storage mixed_calls calm_db ≡ serve_all checked_storage mixed_calls calm_mem
mixed_calls-Simulates =
    serve_all-Simulates mixed_calls calm_db calm_mem
      (omega arith, ((tt, (omega arith, tt)), (tt, (tt, (tt, tt))))) simulates
