-- ===== src/Repository/Mem/Laws.antt =====
-- What the methods of `MemStorage` guarantee, key by key.
use mathlib.Core.List.{Perm}
use mathlib.Core.Option
use go_metrics_stas.Prelude.{
  String, ◌≡◌, ap, refl, ◌∙◌, sym, Option, none, some, List, [], ◌∷◌, ◌==◌, arith, eq_iff, ◌&&◌,
  Bool-cases, inl, inr, if◌then◌else◌, or_else,
}
use go_metrics_stas.Dict.{Dict, get, put_all, keys}
use go_metrics_stas.Dict.Laws.{
  get-put, get-put_all, HasDistinctKeys, put-HasDistinctKeys, put_all-HasDistinctKeys,
}
use go_metrics_stas.Model.{Int64, Float64, counter, gauge, add_int64, Metrics, counter_of_gauge}
use go_metrics_stas.Outcome.{ok, counter_not_found, gauge_not_found}
use go_metrics_stas.Repository.Batch.{
  deltas, keep_delta, cons_some, last_value, sum, counted, counted-perm,
}
use go_metrics_stas.Repository.Mem.{
  MemStorage, update_gauge, or_zero, update_counter, of_gauge, of_counter, list_gauges,
  list_counters, collect_all, set_gauge, add_counter, apply_item, apply_items, update_batch, found,
  get_counter, get_gauge,
}

-- Go's maps hold a key once.
pub record IsValid (ms : MemStorage) : Type 0 where
  pub gauges : HasDistinctKeys ms.gauges
  pub counters : HasDistinctKeys ms.counters

pub update_gauge-IsValid :
    (id : String) (v : Float64) {ms : MemStorage} → IsValid ms → IsValid (update_gauge id v ms)
unfolding update_gauge
update_gauge-IsValid id v {ms} h = record {
  gauges = put-HasDistinctKeys id v ms.gauges h.gauges;
  counters = h.counters;
}

pub update_counter-IsValid :
    (id : String) (d : Int64) {ms : MemStorage} → IsValid ms → IsValid (update_counter id d ms)
unfolding update_counter
update_counter-IsValid id d {ms} h = record {
  gauges = h.gauges;
  counters = put-HasDistinctKeys id _ ms.counters h.counters;
}

module _ (j : String) (ms : MemStorage) where
  counters-set_gauge :
      (id : String) (o : Option Float64) → get j (set_gauge id o ms).counters ≡ get j ms.counters
  unfolding set_gauge
  counters-set_gauge id none = refl
  counters-set_gauge id (some v) = refl

  gauges-add_counter :
      (id : String) (o : Option Int64) → get j (add_counter id o ms).gauges ≡ get j ms.gauges
  unfolding add_counter
  gauges-add_counter id none = refl
  gauges-add_counter id (some v) = refl

  counters-add_counter :
      (id : String) (o : Option Int64) (ds : List Int64)
      → counted (get j (add_counter id o ms).counters) ds
        ≡ counted (get j ms.counters) (if id == j then cons_some o ds else ds)
  unfolding add_counter sum
  counters-add_counter id none ds = ground arith
  counters-add_counter id (some d) ds =
      ground
        (arith, get-put id j (add_int64 (or_zero (get id ms.counters)) d) ms.counters, eq_iff id j)

  gauges-set_gauge :
      (id : String) (o : Option Float64)
      → get j (set_gauge id o ms).gauges ≡ or_else (if id == j then o else none) (get j ms.gauges)
  unfolding set_gauge
  gauges-set_gauge id none = ground arith
  gauges-set_gauge id (some v) = ground (arith, get-put id j v ms.gauges)

module _ (j : String) (m : Metrics) (ms : MemStorage) where
  counters-apply_item :
      (ds : List Int64)
      → counted (get j (apply_item m ms).counters) ds
        ≡ counted (get j ms.counters) (keep_delta j m ds)
  unfolding apply_item keep_delta
  counters-apply_item ds = elim (Bool-cases (m.mtype == gauge)) [
    | inl e ↦ rw (e, counter_of_gauge m.mtype e, counters-set_gauge j ms m.id m.value) refl
    | inr e ↦ rw e (elim (Bool-cases (m.mtype == counter)) [
      | inl f ↦ rw f (counters-add_counter j ms m.id m.delta ds)
      | inr f ↦ rw f
    ])
  ]

  gauges-apply_item :
      get j (apply_item m ms).gauges
      ≡ or_else (if m.mtype == gauge && m.id == j then m.value else none) (get j ms.gauges)
  unfolding apply_item
  gauges-apply_item = elim (Bool-cases (m.mtype == gauge)) [
    | inl e ↦ rw e (gauges-set_gauge j ms m.id m.value)
    | inr e ↦ rw e (elim (Bool-cases (m.mtype == counter)) [
      | inl f ↦ rw f (gauges-add_counter j ms m.id m.delta)
      | inr f ↦ rw f
    ])
  ]

module _ (j : String) where
  pub counters-apply_items :
      (items : List Metrics) (ms : MemStorage)
      → get j (apply_items items ms).counters ≡ counted (get j ms.counters) (deltas j items)
  unfolding apply_items deltas
  counters-apply_items [] ms = refl
  counters-apply_items (m ∷ items) ms =
      counters-apply_items items (apply_item m ms) ∙ counters-apply_item j m ms (deltas j items)

  pub gauges-apply_items :
      (items : List Metrics) (ms : MemStorage)
      → get j (apply_items items ms).gauges ≡ or_else (last_value j items) (get j ms.gauges)
  unfolding apply_items last_value
  gauges-apply_items [] ms = refl
  gauges-apply_items (m ∷ items) ms =
      ground (arith, gauges-apply_items items (apply_item m ms), gauges-apply_item j m ms)

pub counters-update_batch :
    (items : List Metrics) (ms : MemStorage) (j : String)
    → get j (update_batch items ms).1.counters ≡ counted (get j ms.counters) (deltas j items)
unfolding update_batch deltas
counters-update_batch [] ms j = refl
counters-update_batch (m ∷ items) ms j = counters-apply_items j (m ∷ items) ms

pub gauges-update_batch :
    (items : List Metrics) (ms : MemStorage) (j : String)
    → get j (update_batch items ms).1.gauges ≡ or_else (last_value j items) (get j ms.gauges)
unfolding update_batch last_value
gauges-update_batch [] ms j = refl
gauges-update_batch (m ∷ items) ms j = gauges-apply_items j (m ∷ items) ms

ok-update_batch : (items : List Metrics) (ms : MemStorage) → (update_batch items ms).0 ≡ ok tt
unfolding update_batch
ok-update_batch [] ms = refl
ok-update_batch (m ∷ items) ms = refl

-- An `UpdateBatch` reports success; a counter that is read after it holds its old value plus the sum
-- of the batch's deltas for it, modulo 2 ^ 64 (it is not found if it was absent and the batch has no
-- delta for it); a gauge holds the batch's last value for it, or its old value.
pub update_batch_lem :
    (items : List Metrics) (ms : MemStorage) (j : String)
    → ((update_batch items ms).0 ≡ ok tt)
      × ((get_counter j (update_batch items ms).1).0
          ≡ found counter_not_found (counted (get j ms.counters) (deltas j items)))
      × ((get_gauge j (update_batch items ms).1).0
          ≡ found gauge_not_found (or_else (last_value j items) (get j ms.gauges)))
unfolding get_counter get_gauge
update_batch_lem items ms j = (
  ok-update_batch items ms,
  ap (found counter_not_found) (counters-update_batch items ms j),
  ap (found gauge_not_found) (gauges-update_batch items ms j),
)

-- Reordering a batch changes no counter.
pub update_batch-perm :
    (j : String) (ms : MemStorage) {xs ys : List Metrics}
    → Perm xs ys
    → (get_counter j (update_batch xs ms).1).0 ≡ (get_counter j (update_batch ys ms).1).0
update_batch-perm j ms {xs} {ys} p =
    (update_batch_lem xs ms j).1
    ∙ ap (found counter_not_found) (counted-perm j (get j ms.counters) p)
    ∙ sym (update_batch_lem ys ms j).1

get-list_gauges :
    (j : String) (m : Dict Float64) → get j (list_gauges m) ≡ Option.map (of_gauge j) (get j m)
unfolding get list_gauges
get-list_gauges j [] = refl
get-list_gauges j ((i, v) ∷ m) = ground (arith, eq_iff i j, get-list_gauges j m)

get-list_counters :
    (j : String) (m : Dict Int64) → get j (list_counters m) ≡ Option.map (of_counter j) (get j m)
unfolding get list_counters
get-list_counters j [] = refl
get-list_counters j ((i, v) ∷ m) = ground (arith, eq_iff i j, get-list_counters j m)

keys-list_gauges : (m : Dict Float64) → keys (list_gauges m) ≡ keys m
unfolding list_gauges
keys-list_gauges [] = refl
keys-list_gauges ((i, v) ∷ m) = ap (λ ks. i ∷ ks) (keys-list_gauges m)

keys-list_counters : (m : Dict Int64) → keys (list_counters m) ≡ keys m
unfolding list_counters
keys-list_counters [] = refl
keys-list_counters ((i, v) ∷ m) = ap (λ ks. i ∷ ks) (keys-list_counters m)

list_gauges-HasDistinctKeys :
    (m : Dict Float64) → HasDistinctKeys m → HasDistinctKeys (list_gauges m)
unfolding list_gauges
list_gauges-HasDistinctKeys [] h = h
list_gauges-HasDistinctKeys ((i, v) ∷ m) h =
    (rw (keys-list_gauges m) h.0, list_gauges-HasDistinctKeys m h.1)

list_counters-HasDistinctKeys :
    (m : Dict Int64) → HasDistinctKeys m → HasDistinctKeys (list_counters m)
unfolding list_counters
list_counters-HasDistinctKeys [] h = h
list_counters-HasDistinctKeys ((i, v) ∷ m) h =
    (rw (keys-list_counters m) h.0, list_counters-HasDistinctKeys m h.1)

-- What `GetAllMetrics` lists under a name, from the counter and the gauge of that name.
abbrev pub listed : String → Option Int64 → Option Float64 → Option Metrics
listed j c g = or_else (Option.map (of_counter j) c) (Option.map (of_gauge j) g)

pub get-collect_all :
    (j : String) (ms : MemStorage)
    → IsValid ms
    → get j (collect_all ms) ≡ listed j (get j ms.counters) (get j ms.gauges)
unfolding collect_all get
get-collect_all j ms h = ground (
  arith,
  get-put_all j (list_counters ms.counters) (put_all (list_gauges ms.gauges) [])
      (list_counters-HasDistinctKeys ms.counters h.counters),
  get-put_all j (list_gauges ms.gauges) [] (list_gauges-HasDistinctKeys ms.gauges h.gauges),
  get-list_counters j ms.counters,
  get-list_gauges j ms.gauges,
)

pub collect_all-HasDistinctKeys : (ms : MemStorage) → HasDistinctKeys (collect_all ms)
unfolding collect_all
collect_all-HasDistinctKeys ms =
    put_all-HasDistinctKeys (list_counters ms.counters) _
      (put_all-HasDistinctKeys (list_gauges ms.gauges) [] tt)
