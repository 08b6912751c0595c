-- ===== src/Repository/Pg/Refines.antt =====
-- `postgresStorage` beside `MemStorage`: what a client is answered, call by call. The listing of all
-- metrics is left out, since the two differ on a name that has both a gauge and a counter.
use go_metrics_stas.Prelude.{
  ℕ, ◌^◌, ◌<◌, String, ◌≡◌, refl, ap, Option, none, some, List, [], ◌∷◌, All, Option-cases, inl,
  inr,
}
use go_metrics_stas.Dict.{get}
use go_metrics_stas.Model.{Int64, Float64, Metrics, gauge, counter}
use go_metrics_stas.Outcome.{
  Exec, Error, counter_not_found, gauge_not_found, failure, Result, ok, err,
}
use go_metrics_stas.Repository.{Storage}
use go_metrics_stas.Repository.Mem
use go_metrics_stas.Repository.Mem.{MemStorage, or_zero, found}
use go_metrics_stas.Repository.Pg
use go_metrics_stas.Repository.Pg.{
  Row, Db, tick, add_bigint, select, scanned, value_of, upsert_gauge, upsert_counter,
}
use go_metrics_stas.Repository.Pg.Tx
use go_metrics_stas.Repository.Pg.View.{column_of, gauge_at, counter_at}
use go_metrics_stas.Repository.Pg.Calm.{
  Calm, rows_or, update_gauge-Calm, update_counter-Calm, get_gauge-Calm, get_counter-Calm,
}
use go_metrics_stas.Repository.Pg.Tx.Calm.{batch_answer, update_batch-Calm}
use go_metrics_stas.Repository.Pg.Checked.{
  checked_counter, checked_items, Shows, Both, neither, both, upsert_gauge-Shows,
  upsert_counter-Both, Fits, items-Both,
}

abbrev pub pg_storage : Storage Db
pg_storage = record {
  update_gauge = Pg.update_gauge;
  update_counter = Pg.update_counter;
  get_gauge = Pg.get_gauge;
  get_counter = Pg.get_counter;
  get_all_metrics = Pg.get_all_metrics;
  update_batch = Tx.update_batch;
}

-- `MemStorage` with the sums of a BIGINT: an update of a counter that does not fit is dropped, and
-- one in a batch fails the whole of it.
unfoldable pub counter_or : Option MemStorage → MemStorage → MemStorage
counter_or none ms = ms
counter_or (some out) ms = out

unfoldable pub batch_or : Option MemStorage → Exec MemStorage (Unit {0})
unfolding counter_or
batch_or none ms = (err (failure "database"), ms)
batch_or (some out) ms = (ok tt, out)

unfoldable pub checked_update_counter : String → Int64 → MemStorage → MemStorage
unfolding counter_or
checked_update_counter id d ms = counter_or (checked_counter id d ms) ms

unfoldable pub checked_update_batch : List Metrics → Exec MemStorage (Unit {0})
unfolding batch_or
checked_update_batch items ms = batch_or (checked_items items ms) ms

abbrev pub checked_storage : Storage MemStorage
checked_storage = record {
  update_gauge = Mem.update_gauge;
  update_counter = checked_update_counter;
  get_gauge = Mem.get_gauge;
  get_counter = Mem.get_counter;
  get_all_metrics = Mem.get_all_metrics;
  update_batch = checked_update_batch;
}

-- What a client asks of a storage, and what it is answered.
pub data Call : Type 0 where
  gauge_set : String → Float64 → Call
  counter_add : String → Int64 → Call
  gauge_of counter_of : String → Call
  batch : List Metrics → Call

pub data Answer : Type 0 where
  silent : Answer
  gauge_is : Result Float64 → Answer
  counter_is : Result Int64 → Answer
  batch_is : Result (Unit {0}) → Answer

unfoldable pub tell : {S A : Type 0} → (Result A → Answer) → Result A × S → Answer × S
tell f (r, s) = (f r, s)

module _ {S : Type 0} (st : Storage S) where
  unfoldable pub answer : Call → S → Answer × S
  unfolding tell
  answer (gauge_set id v) s = (silent, st.update_gauge id v s)
  answer (counter_add id d) s = (silent, st.update_counter id d s)
  answer (gauge_of id) s = tell gauge_is (st.get_gauge id s)
  answer (counter_of id) s = tell counter_is (st.get_counter id s)
  answer (batch items) s = tell batch_is (st.update_batch items s)

  -- The answers to some calls, one after the other.
  unfoldable pub answers : List Call → S → List Answer
  answers [] s = []
  answers (c ∷ calls) s = let (a, s') = answer c s in a ∷ answers calls s'

-- The numbers of a call are int64s.
abbrev pub CallFits : Call → Type 0
CallFits (gauge_set id v) = Unit
CallFits (counter_add id d) = d < 2 ^ 64
CallFits (gauge_of id) = Unit
CallFits (counter_of id) = Unit
CallFits (batch items) = All (λ m. Fits m.delta) items

pub record Simulates (db : Db) (ms : MemStorage) : Type 0 where
  pub calm : Calm db
  pub shows : Shows db.table ms

-- Two states that answer alike, and go on in states that match.
abbrev Alike : Answer × Db → Answer × MemStorage → Type 0
Alike a b = (a.0 ≡ b.0) × Simulates a.1 b.1

value_of-scanned {ℓ} :
    {A : Type ℓ} (missing : Error) (column : Row → Option A) (o : Option Row)
    → value_of missing (scanned column o) ≡ found missing (column_of column o)
unfolding value_of scanned
value_of-scanned missing column none = refl
value_of-scanned missing column (some r) = elim (Option-cases (column r)) [
  | inl e ↦ rw e refl
  | inr (a, e) ↦ rw e refl
]

gauge_of-Shows :
    (id : String) (db : Db) (ms : MemStorage)
    → Shows db.table ms
    → column_of (λ (r : Row). r.value) (select id gauge db.table) ≡ get id ms.gauges
gauge_of-Shows id db ms h = unfold gauge_at in h.gauges id

counter_of-Shows :
    (id : String) (db : Db) (ms : MemStorage)
    → Shows db.table ms
    → column_of (λ (r : Row). r.delta) (select id counter db.table) ≡ get id ms.counters
counter_of-Shows id db ms h = unfold counter_at in h.counters id

Both-counter :
    (db db' : Db) (ms : MemStorage) (o : Option (List Row)) (p : Option MemStorage)
    → Simulates db ms
    → Both o p
    → db' ≡ record (tick db) { table = rows_or o db.table }
    → Simulates db' (counter_or p ms)
unfolding counter_or
Both-counter db db' ms _ _ h neither e = rw e (record { calm = h.calm; shows = h.shows })
Both-counter db db' ms _ _ h (both rows out s) e = rw e (record { calm = h.calm; shows = s })

Both-batch :
    (db : Db) (n : ℕ) (ms : MemStorage) (o : Option (List Row)) (p : Option MemStorage)
    → Simulates db ms
    → Both o p
    → Alike
        (tell batch_is (batch_answer o, record db { table = rows_or o db.table; calls = n }))
        (tell batch_is (batch_or p ms))
unfolding batch_or tell
Both-batch db n ms _ _ h neither = (refl, record { calm = h.calm; shows = h.shows })
Both-batch db n ms _ _ h (both rows out s) = (refl, record { calm = h.calm; shows = s })

pub answer-Alike :
    (c : Call) (db : Db) (ms : MemStorage)
    → CallFits c
    → Simulates db ms
    → Alike (answer pg_storage c db) (answer checked_storage c ms)
unfolding answer tell checked_update_counter checked_update_batch Mem.get_gauge Mem.get_counter
answer-Alike (gauge_set id v) db ms f h =
    rw (update_gauge-Calm id v db h.calm)
      (refl, record { calm = h.calm; shows = upsert_gauge-Shows id v db.table ms h.shows })
answer-Alike (counter_add id d) db ms f h = (
  refl,
  Both-counter db _ ms _ _ h (upsert_counter-Both id d db.table ms f h.shows)
      (update_counter-Calm id d db h.calm),
)
answer-Alike (gauge_of id) db ms f h =
    rw
      (
        get_gauge-Calm id db h.calm,
        value_of-scanned gauge_not_found (λ (r : Row). r.value) (select id gauge db.table),
      )
      (
        ap (λ o. gauge_is (found gauge_not_found o)) (gauge_of-Shows id db ms h.shows),
        record { calm = h.calm; shows = h.shows },
      )
answer-Alike (counter_of id) db ms f h =
    rw
      (
        get_counter-Calm id db h.calm,
        value_of-scanned counter_not_found (λ (r : Row). r.delta) (select id counter db.table),
      )
      (
        ap (λ o. counter_is (found counter_not_found o)) (counter_of-Shows id db ms h.shows),
        record { calm = h.calm; shows = h.shows },
      )
answer-Alike (batch items) db ms f h =
    let (n, e) = update_batch-Calm items db h.calm in
    rw e (Both-batch db n ms _ _ h (items-Both items db.table ms f h.shows))

-- From a table that shows the metrics in memory, and while no call of the database fails, any
-- updates, batches and reads of single metrics whose deltas are int64s are answered as by the storage
-- in memory that adds up within a BIGINT.
pub answers-Simulates :
    (calls : List Call) (db : Db) (ms : MemStorage)
    → All CallFits calls
    → Simulates db ms
    → answers pg_storage calls db ≡ answers checked_storage calls ms
unfolding answers
answers-Simulates [] db ms f h = refl
answers-Simulates (c ∷ calls) db ms (f, fs) h =
    let (same, next) = answer-Alike c db ms f h in
    rw (same, answers-Simulates calls _ _ fs next) refl
