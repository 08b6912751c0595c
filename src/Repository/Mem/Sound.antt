-- ===== src/Repository/Mem/Sound.antt =====
-- The invariant of `MemStorage`: its maps hold a key once, and a counter is always the bit pattern
-- of an int64, whatever deltas came in.
use go_metrics_stas.Prelude.{
  ◌<◌, ◌^◌, String, ◌≡◌, some, none, Option, Bool, true, false, List, [], ◌∷◌, ◌==◌, arith,
  if◌then◌else◌,
}
use go_metrics_stas.Dict.{get}
use go_metrics_stas.Dict.Laws.{get-put}
use go_metrics_stas.Model.{Int64, Float64, counter, gauge, add_int64, Metrics}
use go_metrics_stas.Repository.Mem.{
  MemStorage, new_mem_storage, update_gauge, or_zero, update_counter, set_gauge, add_counter,
  apply_item, apply_items, update_batch,
}
use go_metrics_stas.Repository.Mem.Laws.{IsValid, update_gauge-IsValid, update_counter-IsValid}

pub record IsSound (ms : MemStorage) : Type 0 where
  pub valid : IsValid ms
  pub in_range : (j : String) (d : Int64) → get j ms.counters ≡ some d → d < 2 ^ 64

pub new_mem_storage-IsSound : IsSound new_mem_storage
unfolding get
new_mem_storage-IsSound = record {
  valid = record { gauges = tt; counters = tt };
  in_range = λ j d h. ground arith;
}

pub update_gauge-IsSound :
    (id : String) (v : Float64) {ms : MemStorage} → IsSound ms → IsSound (update_gauge id v ms)
unfolding update_gauge
update_gauge-IsSound id v h = record {
  valid = unfold update_gauge in update_gauge-IsValid id v h.valid;
  in_range = h.in_range;
}

pub update_counter-IsSound :
    (id : String) (d : Int64) {ms : MemStorage} → IsSound ms → IsSound (update_counter id d ms)
unfolding update_counter
update_counter-IsSound id d {ms} h = record {
  valid = update_counter-IsValid id d h.valid;
  in_range = λ j n e. ground (
    arith,
    get-put id j (add_int64 (or_zero (get id ms.counters)) d) ms.counters,
    h.in_range j n,
  );
}

set_gauge-IsSound :
    (id : String) (o : Option Float64) {ms : MemStorage} → IsSound ms → IsSound (set_gauge id o ms)
unfolding set_gauge
set_gauge-IsSound id none h = h
set_gauge-IsSound id (some v) h = update_gauge-IsSound id v h

add_counter-IsSound :
    (id : String) (o : Option Int64) {ms : MemStorage} → IsSound ms → IsSound (add_counter id o ms)
unfolding add_counter
add_counter-IsSound id none h = h
add_counter-IsSound id (some d) h = update_counter-IsSound id d h

if-IsSound : (b : Bool) {x y : MemStorage} → IsSound x → IsSound y → IsSound (if b then x else y)
if-IsSound true hx hy = hx
if-IsSound false hx hy = hy

pub apply_items-IsSound :
    (items : List Metrics) (ms : MemStorage) → IsSound ms → IsSound (apply_items items ms)
unfolding apply_items apply_item
apply_items-IsSound [] ms h = h
apply_items-IsSound (m ∷ items) ms h = apply_items-IsSound items (apply_item m ms) (
    if-IsSound (m.mtype == gauge) (set_gauge-IsSound m.id m.value h)
      (if-IsSound (m.mtype == counter) (add_counter-IsSound m.id m.delta h) h))

pub update_batch-IsSound :
    (items : List Metrics) (ms : MemStorage) → IsSound ms → IsSound (update_batch items ms).1
unfolding update_batch
update_batch-IsSound [] ms h = h
update_batch-IsSound (m ∷ items) ms h = apply_items-IsSound (m ∷ items) ms h
