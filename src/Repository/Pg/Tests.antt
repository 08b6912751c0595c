-- ===== src/Repository/Pg/Tests.antt =====
-- Runs of `postgresStorage` against databases that fail, and the theorems at them.
use go_metrics_stas.Prelude.{
  ◌≡◌, refl, none, some, true, false, List, [], ◌∷◌, if◌then◌else◌, ltb, eqb, arith, ◌^◌, ◌-◌,
}
use go_metrics_stas.Model.{Metrics}
use go_metrics_stas.Outcome.{ok, err, failure, counter_not_found}
use go_metrics_stas.Dict.{get, put}
use go_metrics_stas.Repository.Mem
use go_metrics_stas.Repository.Mem.{of_gauge, of_counter, MemStorage}
use go_metrics_stas.Repository.Mem.Lawfulness.{mem_storage}
use go_metrics_stas.Repository.Pg.Sample.{calm_db, calm_mem, simulates, mixed_calls}
use go_metrics_stas.Repository.Pg.Checked.{checked_items}
use go_metrics_stas.Repository.Pg.Refines.{
  pg_storage, checked_storage, checked_update_batch, checked_update_counter, Call, counter_add,
  batch, gauge_of, counter_of, silent, gauge_is, counter_is, batch_is, answer, answers,
  answers-Simulates,
}
use go_metrics_stas.Repository.Pg.Agrees.{InRange, answers-InRange}
use go_metrics_stas.Repository.Pg.{
  bad_conn, pg_error, Row, Fault, Db, update_counter, upsert_counter, add_bigint,
  is_pg_conn_exception, retry_pg, put_rows,
}
use go_metrics_stas.Repository.Pg.Tx.{update_batch}
use go_metrics_stas.Repository.Pg.Tx.Atomic.{BatchResult, NothingLost, update_batch_atomic}
use go_metrics_stas.Repository.Pg.Outage.{Outage, update_counter-Outage, update_counter_twice}

abbrev old : List Row
old = record { id = "a"; mtype = "counter"; value = none; delta = some 40 } ∷ []

abbrev new : List Row
new = record { id = "a"; mtype = "counter"; value = none; delta = some 42 } ∷ []

abbrev newer : List Row
newer = record { id = "a"; mtype = "counter"; value = none; delta = some 44 } ∷ []

abbrev dropped : Fault
dropped = record { error = pg_error "08006"; applied = false }

abbrev lost : Fault
lost = record { error = bad_conn; applied = true }

-- The first three calls drop.
abbrev outage_db : Db
outage_db = record { table = old; calls = 0; fault = λ n. if ltb n 3 then some dropped else none }

abbrev lost_db : Db
lost_db = record { table = old; calls = 0; fault = λ n. if eqb n 0 then some lost else none }

adds : upsert_counter "a" 2 old ≡ some new
unfolding upsert_counter add_bigint
adds = refl

adds_again : upsert_counter "a" 2 new ≡ some newer
unfolding upsert_counter add_bigint
adds_again = refl

drops : Outage outage_db 3
unfolding is_pg_conn_exception
drops = (
  (dropped, refl, refl, refl),
  ((dropped, refl, refl, refl), ((dropped, refl, refl, refl), refl)),
)

update_counter-Outage_example :
    update_counter "a" 2 outage_db ≡ record outage_db { table = new; calls = 4 }
update_counter-Outage_example = update_counter-Outage "a" 2 outage_db 3 new (omega arith) adds drops

is_conn : is_pg_conn_exception bad_conn ≡ true
unfolding is_pg_conn_exception
is_conn = refl

update_counter_twice_example : (update_counter "a" 2 lost_db).table ≡ newer
update_counter_twice_example =
    update_counter_twice "a" 2 lost_db new newer lost adds adds_again refl is_conn refl refl

-- The fifth call is the second statement of the transaction, and it drops; the second try succeeds.
abbrev batch_db : Db
batch_db = record { table = old; calls = 0; fault = λ n. if eqb n 4 then some dropped else none }

abbrev items : List Metrics
items = of_counter "a" 2 ∷ of_gauge "b" 9 ∷ []

nothing_lost : NothingLost batch_db
nothing_lost n f h = ground arith

update_batch_atomic_example :
    BatchResult items old (update_batch items batch_db).0 (update_batch items batch_db).1.table
update_batch_atomic_example = update_batch_atomic items batch_db nothing_lost

stores : (update_batch items batch_db).0 ≡ ok tt
unfolding update_batch retry_pg upsert_counter add_bigint is_pg_conn_exception
stores = refl

calls_made : (update_batch items batch_db).1.calls ≡ 11
unfolding update_batch retry_pg upsert_counter add_bigint is_pg_conn_exception
calls_made = refl

answers-Simulates_example :
    answers pg_storage mixed_calls calm_db ≡ answers checked_storage mixed_calls calm_mem
answers-Simulates_example =
    answers-Simulates mixed_calls calm_db calm_mem
      (omega arith, ((tt, (omega arith, tt)), (tt, (tt, (tt, tt))))) simulates

answers_of_overflow :
    answers checked_storage mixed_calls calm_mem
    ≡ silent
      ∷ batch_is (err (failure "database"))
      ∷ gauge_is (ok 7)
      ∷ counter_is (ok 42)
      ∷ counter_is (err counter_not_found)
      ∷ []
unfolding answers answer checked_update_batch Mem.get_gauge Mem.get_counter checked_items get
    add_bigint Mem.set_gauge checked_update_counter put
answers_of_overflow = refl

abbrev small_calls : List Call
small_calls =
    counter_add "a" 2
    ∷ batch (of_gauge "b" 9 ∷ of_counter "a" (2 ^ 64 - 50) ∷ [])
    ∷ gauge_of "b"
    ∷ counter_of "a"
    ∷ []

in_range : InRange small_calls calm_mem
unfolding answer add_bigint get checked_items Mem.set_gauge Mem.update_counter put
in_range = (
  (42, refl),
  (
    (record { gauges = ("a", 7) ∷ ("b", 9) ∷ []; counters = ("a", 2 ^ 64 - 8) ∷ [] }, refl),
    (tt, (tt, tt)),
  ),
)

answers-InRange_example :
    answers pg_storage small_calls calm_db ≡ answers mem_storage small_calls calm_mem
answers-InRange_example =
    answers-InRange small_calls calm_db calm_mem
      (omega arith, ((tt, (omega arith, tt)), (tt, (tt, tt)))) in_range simulates

-- The name that has both is listed with its gauge alone; `MemStorage` lists its counter alone.
lists_gauge : get "a" (put_rows calm_db.table []) ≡ some (of_gauge "a" 7)
unfolding put_rows get put
lists_gauge = refl
