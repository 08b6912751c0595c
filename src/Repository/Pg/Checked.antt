-- ===== src/Repository/Pg/Checked.antt =====
-- The metrics in memory with the sums of a BIGINT, and the table that shows them.
use go_metrics_stas.Prelude.{
  ◌^◌, ◌<◌, String, ◌≡◌, ◌∙◌, Option, none, some, List, [], ◌∷◌, ◌==◌, All, arith, if◌then◌else◌,
  Bool-cases, inl, inr,
}
use go_metrics_stas.Dict.{get, put}
use go_metrics_stas.Dict.Laws.{get-put}
use go_metrics_stas.Model.{Int64, Float64, Metrics, gauge, counter}
use go_metrics_stas.Repository.Mem
use go_metrics_stas.Repository.Mem.{MemStorage, or_zero, found}
use go_metrics_stas.Repository.Pg.{Row, add_bigint, upsert_gauge, upsert_counter}
use go_metrics_stas.Repository.Pg.Tx.Atomic.{
  gauge_row, counter_row, item_rows, then_rows, batch_rows,
}
use go_metrics_stas.Repository.Pg.View.{
  gauge_at, counter_at, gauge_at-upsert_gauge, counter_at-upsert_gauge, Upserts, overflows, stores,
  upsert_counter-Upserts,
}

-- A counter in memory whose sum is that of a BIGINT: none where it does not fit.
unfoldable pub add_checked : String → Option Int64 → MemStorage → Option MemStorage
add_checked id none ms = none
add_checked id (some t) ms = some (record ms { counters = put id t ms.counters })

unfoldable pub checked_counter : String → Int64 → MemStorage → Option MemStorage
unfolding add_checked
checked_counter id d ms = add_checked id (add_bigint (or_zero (get id ms.counters)) d) ms

unfoldable pub checked_delta : String → Option Int64 → MemStorage → Option MemStorage
unfolding checked_counter
checked_delta id none ms = some ms
checked_delta id (some d) ms = checked_counter id d ms

unfoldable pub checked_item : Metrics → MemStorage → Option MemStorage
unfolding checked_delta
checked_item m ms =
    if m.mtype == gauge
    then some (Mem.set_gauge m.id m.value ms)
    else if m.mtype == counter
    then checked_delta m.id m.delta ms
    else some ms

unfoldable pub then_checked :
    Option MemStorage → (MemStorage → Option MemStorage) → Option MemStorage
then_checked none f = none
then_checked (some ms) f = f ms

unfoldable pub checked_items : List Metrics → MemStorage → Option MemStorage
unfolding checked_item then_checked
checked_items [] ms = some ms
checked_items (m ∷ items) ms = then_checked (checked_item m ms) (checked_items items)

-- The table shows the metrics that are in memory.
pub record Shows (rows : List Row) (ms : MemStorage) : Type 0 where
  pub gauges : (j : String) → gauge_at rows j ≡ get j ms.gauges
  pub counters : (j : String) → counter_at rows j ≡ get j ms.counters

pub data Both : Option (List Row) → Option MemStorage → Type 0 where
  neither : Both none none
  both : (rows : List Row) (ms : MemStorage) → Shows rows ms → Both (some rows) (some ms)

pub upsert_gauge-Shows :
    (id : String) (v : Float64) (rows : List Row) (ms : MemStorage)
    → Shows rows ms
    → Shows (upsert_gauge id v rows) (Mem.update_gauge id v ms)
unfolding Mem.update_gauge
upsert_gauge-Shows id v rows ms h = record {
  gauges =
      λ j. ground (arith, gauge_at-upsert_gauge id v rows j, get-put id j v ms.gauges, h.gauges j);
  counters = λ j. counter_at-upsert_gauge id v rows j ∙ h.counters j;
}

Upserts-Both :
    (id : String) (rows : List Row) (ms : MemStorage) (o : Option Int64) (out : Option (List Row))
    → Shows rows ms
    → Upserts id rows o out
    → Both out (add_checked id o ms)
unfolding add_checked
Upserts-Both id rows ms _ _ h overflows = neither
Upserts-Both id rows ms _ _ h (stores t out s) = both out _ (record {
  gauges = λ j. s.gauges j ∙ h.gauges j;
  counters = λ j. ground (arith, s.counters j, get-put id j t ms.counters, h.counters j);
})

pub upsert_counter-Both :
    (id : String) (d : Int64) (rows : List Row) (ms : MemStorage)
    → d < 2 ^ 64
    → Shows rows ms
    → Both (upsert_counter id d rows) (checked_counter id d ms)
unfolding checked_counter
upsert_counter-Both id d rows ms f h =
    rw (← h.counters id) (Upserts-Both id rows ms _ _ h (upsert_counter-Upserts id d rows f))

-- An int64 is below 2 ^ 64.
abbrev pub Fits : Option Int64 → Type 0
Fits none = Unit
Fits (some d) = d < 2 ^ 64

gauge_row-Both :
    (id : String) (o : Option Float64) (rows : List Row) (ms : MemStorage)
    → Shows rows ms
    → Both (some (gauge_row id o rows)) (some (Mem.set_gauge id o ms))
unfolding Mem.set_gauge
gauge_row-Both id none rows ms h = both rows ms h
gauge_row-Both id (some v) rows ms h = both _ _ (upsert_gauge-Shows id v rows ms h)

counter_row-Both :
    (id : String) (o : Option Int64) (rows : List Row) (ms : MemStorage)
    → Fits o
    → Shows rows ms
    → Both (counter_row id o rows) (checked_delta id o ms)
unfolding checked_delta
counter_row-Both id none rows ms f h = both rows ms h
counter_row-Both id (some d) rows ms f h = upsert_counter-Both id d rows ms f h

item-Both :
    (m : Metrics) (rows : List Row) (ms : MemStorage)
    → Fits m.delta
    → Shows rows ms
    → Both (item_rows m rows) (checked_item m ms)
unfolding checked_item
item-Both m rows ms f h = elim (Bool-cases (m.mtype == gauge)) [
  | inl a ↦ rw a (gauge_row-Both m.id m.value rows ms h)
  | inr a ↦ elim (Bool-cases (m.mtype == counter)) [
    | inl b ↦ rw (a, b) (counter_row-Both m.id m.delta rows ms f h)
    | inr b ↦ rw (a, b) (both rows ms h)
  ]
]

then-Both :
    (f : List Row → Option (List Row)) (g : MemStorage → Option MemStorage) (o : Option (List Row))
    (p : Option MemStorage)
    → ((rows : List Row) (ms : MemStorage) → Shows rows ms → Both (f rows) (g ms))
    → Both o p
    → Both (then_rows o f) (then_checked p g)
unfolding then_checked
then-Both f g _ _ w neither = neither
then-Both f g _ _ w (both rows ms h) = w rows ms h

pub items-Both :
    (items : List Metrics) (rows : List Row) (ms : MemStorage)
    → All (λ m. Fits m.delta) items
    → Shows rows ms
    → Both (batch_rows items rows) (checked_items items ms)
unfolding batch_rows checked_items
items-Both [] rows ms f h = both rows ms h
items-Both (m ∷ items) rows ms (f, fs) h =
    then-Both (batch_rows items) (checked_items items) (item_rows m rows) (checked_item m ms)
      (λ rows' ms' h'. items-Both items rows' ms' fs h') (item-Both m rows ms f h)
