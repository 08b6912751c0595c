-- ===== src/Repository/Pg/View.antt =====
-- The table as two maps by name, and what the two upserts do to them.
use go_metrics_stas.Prelude.{
  ◌^◌, ◌<◌, String, ◌≡◌, Option, none, some, List, [], ◌∷◌, ◌==◌, ◌&&◌, arith, eq_iff, Bool-cases,
  inl, inr, true, false, if◌then◌else◌,
}
use go_metrics_stas.Model.{Int64, Float64, gauge, counter}
use go_metrics_stas.Repository.Mem.{or_zero}
use go_metrics_stas.Repository.Pg.{
  Row, add_bigint, upsert_gauge, upsert_counter, with_delta, cons_row, select,
}

-- The column of the row that a read finds.
abbrev pub column_of {ℓ} : {A : Type ℓ} → (Row → Option A) → Option Row → Option A
column_of column none = none
column_of column (some r) = column r

unfoldable pub gauge_at : List Row → String → Option Float64
gauge_at rows j = column_of (λ r. r.value) (select j gauge rows)

unfoldable pub counter_at : List Row → String → Option Int64
counter_at rows j = column_of (λ r. r.delta) (select j counter rows)

pub gauge_at-upsert_gauge :
    (id : String) (v : Float64) (rows : List Row) (j : String)
    → gauge_at (upsert_gauge id v rows) j ≡ (if id == j then some v else gauge_at rows j)
unfolding gauge_at select upsert_gauge
gauge_at-upsert_gauge id v [] j = ground (arith, eq_iff id j)
gauge_at-upsert_gauge id v (r ∷ rows) j = ground (
  arith,
  gauge_at-upsert_gauge id v rows j,
  eq_iff id j,
  eq_iff r.id id,
  eq_iff r.id j,
  eq_iff r.mtype gauge,
)

pub counter_at-upsert_gauge :
    (id : String) (v : Float64) (rows : List Row) (j : String)
    → counter_at (upsert_gauge id v rows) j ≡ counter_at rows j
unfolding counter_at select upsert_gauge
counter_at-upsert_gauge id v [] j = ground (arith, eq_iff id j)
counter_at-upsert_gauge id v (r ∷ rows) j =
    ground
      (arith, counter_at-upsert_gauge id v rows j, eq_iff r.mtype gauge, eq_iff r.mtype counter)

-- The sum that an upsert of a counter stores, none where it does not fit.
abbrev pub summed : List Row → String → Int64 → Option Int64
summed rows id d = add_bigint (or_zero (counter_at rows id)) d

add_bigint-zero : (d : Int64) → d < 2 ^ 64 → add_bigint 0 d ≡ some d
unfolding add_bigint
add_bigint-zero d h = ground arith

-- `t` stored under a name: the tables before and after it.
pub record Stored (id : String) (t : Int64) (rows out : List Row) : Type 0 where
  pub counters : (j : String) → counter_at out j ≡ (if id == j then some t else counter_at rows j)
  pub gauges : (j : String) → gauge_at out j ≡ gauge_at rows j

-- What an upsert of a counter gives.
pub data Upserts (id : String) (rows : List Row) : Option Int64 → Option (List Row) → Type 0 where
  overflows : Upserts id rows none none
  stores : (t : Int64) (out : List Row) → Stored id t rows out → Upserts id rows (some t) (some out)

upsert_counter-nil :
    (id : String) (d : Int64) (o : Option Int64)
    → o ≡ some d
    → Upserts id [] o (upsert_counter id d [])
unfolding upsert_counter gauge_at counter_at select
upsert_counter-nil id d o h = rw h (
    stores d _ (record {
      counters = λ j. ground (arith, eq_iff id j);
      gauges = λ j. ground (arith, eq_iff id j);
    }))

-- The row itself is the one that is updated.
Upserts-with_delta :
    (id : String) (o : Option Int64) (r : Row) (rows : List Row)
    → (r.id == id && r.mtype == counter) ≡ true
    → Upserts id (r ∷ rows) o (with_delta r o rows)
unfolding with_delta gauge_at counter_at select
Upserts-with_delta id none r rows h = overflows
Upserts-with_delta id (some t) r rows h = stores t _ (record {
  counters =
      λ j. ground (arith, eq_iff r.id id, eq_iff r.id j, eq_iff id j, eq_iff r.mtype counter);
  gauges = λ j. ground (arith, eq_iff r.mtype counter, eq_iff r.mtype gauge);
})

-- A row further down is, or a new one at the end.
Upserts-cons_row :
    (id : String) (r : Row) (rows : List Row) (o : Option Int64) (rest : Option (List Row))
    → (r.id == id && r.mtype == counter) ≡ false
    → Upserts id rows o rest
    → Upserts id (r ∷ rows) o (cons_row r rest)
Upserts-cons_row id r rows _ _ h overflows = overflows
Upserts-cons_row id r rows _ _ h (stores t out s) =
    unfold gauge_at counter_at select in
    stores t (r ∷ out) (record {
      counters = λ j.
          ground (
            arith,
            s.counters j,
            eq_iff r.id id,
            eq_iff r.id j,
            eq_iff id j,
            eq_iff r.mtype counter,
          );
      gauges = λ j. ground (arith, s.gauges j);
    })

counter_at-skip :
    (id : String) (r : Row) (rows : List Row)
    → (r.id == id && r.mtype == counter) ≡ false
    → counter_at (r ∷ rows) id ≡ counter_at rows id
unfolding counter_at select
counter_at-skip id r rows h = rw h

counter_at-found :
    (id : String) (r : Row) (rows : List Row)
    → (r.id == id && r.mtype == counter) ≡ true
    → counter_at (r ∷ rows) id ≡ r.delta
unfolding counter_at select
counter_at-found id r rows h = rw h

pub upsert_counter-Upserts :
    (id : String) (d : Int64) (rows : List Row)
    → d < 2 ^ 64
    → Upserts id rows (summed rows id d) (upsert_counter id d rows)
unfolding upsert_counter
upsert_counter-Upserts id d [] h =
    upsert_counter-nil id d _ (unfold counter_at select in add_bigint-zero d h)
upsert_counter-Upserts id d (r ∷ rows) h = elim (Bool-cases (r.id == id && r.mtype == counter)) [
  | inl e ↦ rw (e, counter_at-found id r rows e) (Upserts-with_delta id _ r rows e)
  | inr e ↦
      rw (e, counter_at-skip id r rows e)
        (Upserts-cons_row id r rows _ _ e (upsert_counter-Upserts id d rows h))
]
