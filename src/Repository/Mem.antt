-- ===== src/Repository/Mem.antt =====
-- internal/repository/storage.go: `MemStorage`. Each method holds the mutex from its first line to
-- its return, so that methods of several goroutines run one after the other, in some order.
pub mod Laws
pub mod Named
pub mod Sound
mod Tests
pub mod Lawfulness
use go_metrics_stas.Prelude.{
  ℕ, String, Option, none, some, List, [], ◌∷◌, ◌==◌, if◌then◌else◌, or_else,
}
use go_metrics_stas.Dict.{Dict, get, put, put_all}
use go_metrics_stas.Model.{Int64, Float64, add_int64, counter, gauge, Metrics}
use go_metrics_stas.Outcome.{Error, counter_not_found, gauge_not_found, Result, ok, err, Exec}

pub record MemStorage : Type 0 where
  pub gauges : Dict Float64
  pub counters : Dict Int64

abbrev pub new_mem_storage : MemStorage
new_mem_storage = record { gauges = []; counters = [] }

unfoldable pub update_gauge : String → Float64 → MemStorage → MemStorage
update_gauge id value ms = record ms { gauges = put id value ms.gauges }

-- What a read of a missing key gives: the zero of int64.
abbrev pub or_zero : Option Int64 → Int64
or_zero none = 0
or_zero (some n) = n

unfoldable pub update_counter : String → Int64 → MemStorage → MemStorage
update_counter id delta ms = record ms {
  counters = put id (add_int64 (or_zero (get id ms.counters)) delta) ms.counters;
}

-- `value, ok := m[id]; if !ok { return 0, e }`
abbrev pub found {ℓ} : {A : Type ℓ} → Error → Option A → Result A
found e none = err e
found e (some a) = ok a

unfoldable pub get_gauge : String → Exec MemStorage Float64
get_gauge id ms = (found gauge_not_found (get id ms.gauges), ms)

unfoldable pub get_counter : String → Exec MemStorage Int64
get_counter id ms = (found counter_not_found (get id ms.counters), ms)

abbrev pub of_gauge : String → Float64 → Metrics
of_gauge id v = record { id = id; mtype = gauge; delta = none; value = some v; hash = "" }

abbrev pub of_counter : String → Int64 → Metrics
of_counter id d = record { id = id; mtype = counter; delta = some d; value = none; hash = "" }

-- The two loops of `GetAllMetrics`.
pub list_gauges : Dict Float64 → Dict Metrics
list_gauges [] = []
list_gauges ((id, v) ∷ m) = (id, of_gauge id v) ∷ list_gauges m

pub list_counters : Dict Int64 → Dict Metrics
list_counters [] = []
list_counters ((id, d) ∷ m) = (id, of_counter id d) ∷ list_counters m

-- Both loops write into one map, keyed by the name alone.
pub collect_all : MemStorage → Dict Metrics
unfolding list_gauges list_counters
collect_all ms = put_all (list_counters ms.counters) (put_all (list_gauges ms.gauges) [])

unfoldable pub get_all_metrics : Exec MemStorage (Dict Metrics)
unfolding collect_all
get_all_metrics ms = (ok (collect_all ms), ms)

unfoldable pub set_gauge : String → Option Float64 → MemStorage → MemStorage
unfolding update_gauge
set_gauge id none ms = ms
set_gauge id (some v) ms = update_gauge id v ms

unfoldable pub add_counter : String → Option Int64 → MemStorage → MemStorage
unfolding update_counter
add_counter id none ms = ms
add_counter id (some d) ms = update_counter id d ms

-- One round of the loop of `UpdateBatch`: an item of another type, or without its number, is
-- skipped.
unfoldable pub apply_item : Metrics → MemStorage → MemStorage
unfolding set_gauge add_counter
apply_item m ms =
    if m.mtype == gauge
    then set_gauge m.id m.value ms
    else if m.mtype == counter
    then add_counter m.id m.delta ms
    else ms

unfoldable pub apply_items : List Metrics → MemStorage → MemStorage
apply_items [] ms = ms
apply_items (m ∷ items) ms = apply_items items (apply_item m ms)

unfoldable pub update_batch : List Metrics → Exec MemStorage (Unit {0})
update_batch [] ms = (ok tt, ms)
update_batch (m ∷ items) ms = (ok tt, apply_items (m ∷ items) ms)
