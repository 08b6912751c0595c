-- ===== src/Repository/Mem/Tests.antt =====
-- Runs of `MemStorage`, and the theorems at them.
use mathlib.Core.List.Perm
use go_metrics_stas.Prelude.{◌≡◌, refl, none, List, [], ◌∷◌}
use go_metrics_stas.Dict.{get, put}
use go_metrics_stas.Model.{Metrics}
use go_metrics_stas.Outcome.{ok, counter_not_found, gauge_not_found}
use go_metrics_stas.Repository.Batch.{deltas, last_value, counted}
use go_metrics_stas.Repository.Mem.{
  MemStorage, of_gauge, of_counter, found, get_gauge, get_counter, apply_item, apply_items,
  update_batch,
}
use go_metrics_stas.Repository.Mem.Laws.{update_batch_lem, update_batch-perm}

abbrev before : MemStorage
before = record { gauges = ("b", 9) ∷ []; counters = ("a", 18446744073709551615) ∷ [] }

-- A delta of -1 is 2 ^ 64 - 1; an item of an unknown type is passed over.
abbrev items : List Metrics
items =
    of_counter "a" 3
    ∷ of_gauge "b" 5
    ∷ record (of_gauge "a" 4) { mtype = "timer" }
    ∷ of_counter "c" 18446744073709551615
    ∷ of_gauge "b" 6
    ∷ []

run : (get_counter "a" (update_batch items before).1).0 ≡ ok 2
unfolding get_counter update_batch apply_items apply_item get put
run = refl

update_batch_lem_example :
    ((update_batch items before).0 ≡ ok tt)
    × ((get_counter "c" (update_batch items before).1).0
        ≡ found counter_not_found (counted none (deltas "c" items)))
    × ((get_gauge "c" (update_batch items before).1).0 ≡ found gauge_not_found none)
unfolding get last_value
update_batch_lem_example = update_batch_lem items before "c"

reordered_batch :
    (get_counter "a" (update_batch (of_counter "a" 3 ∷ of_gauge "b" 5 ∷ []) before).1).0
    ≡ (get_counter "a" (update_batch (of_gauge "b" 5 ∷ of_counter "a" 3 ∷ []) before).1).0
reordered_batch = update_batch-perm "a" before (Perm.swap (of_gauge "b" 5) (of_counter "a" 3) [])
