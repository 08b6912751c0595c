-- ===== src/Repository/Pg/Tx.antt =====
-- internal/repository/pgstorage.go: `UpdateBatch`, one transaction that is tried again as a whole.
pub mod Atomic
pub mod Calm
use go_metrics_stas.Prelude.{
  ℕ, String, Option, none, some, Bool, List, [], ◌∷◌, ◌==◌, if◌then◌else◌,
}
use go_metrics_stas.Model.{Int64, Float64, Metrics}
use go_metrics_stas.Outcome.{failure, Result, ok, err, Exec}
use go_metrics_stas.Repository.Pg.{
  PgError, pg_error, Try, done, fails, Row, Fault, Db, Act, tick, call_with, retry_pg, upsert_gauge,
  upsert_counter,
}

-- A transaction works on rows of its own. A fault ends it, and the deferred `Rollback` drops them.
unfoldable pub exec_with : Option Fault → Option (List Row) → Act (List Row)
exec_with none none db = (fails (pg_error "22003"), tick db)
exec_with none (some rows) db = (done rows, tick db)
exec_with (some f) o db = (fails f.error, tick db)

unfoldable pub exec_stmt : Option (List Row) → Act (List Row)
unfolding exec_with
exec_stmt o db = exec_with (db.fault db.calls) o db

unfoldable pub exec_gauge : String → Option Float64 → List Row → Act (List Row)
unfolding exec_stmt
exec_gauge id none rows db = (done rows, db)
exec_gauge id (some v) rows db = exec_stmt (some (upsert_gauge id v rows)) db

unfoldable pub exec_counter : String → Option Int64 → List Row → Act (List Row)
unfolding exec_stmt
exec_counter id none rows db = (done rows, db)
exec_counter id (some d) rows db = exec_stmt (upsert_counter id d rows) db

-- One round of the loop.
unfoldable pub exec_item : Metrics → List Row → Act (List Row)
unfolding exec_gauge exec_counter
exec_item m rows db =
    if m.mtype == "gauge"
    then exec_gauge m.id m.value rows db
    else if m.mtype == "counter"
    then exec_counter m.id m.delta rows db
    else (done rows, db)

unfoldable pub and_then {ℓ κ} : {A : Type ℓ} {B : Type κ} → Try A × Db → (A → Act B) → Try B × Db
and_then (done a, db) f = f a db
and_then (fails e, db) f = (fails e, db)

unfoldable pub exec_items : List Metrics → List Row → Act (List Row)
unfolding exec_item and_then
exec_items [] rows db = (done rows, db)
exec_items (m ∷ items) rows db = and_then (exec_item m rows db) (exec_items items)

-- `tx.Commit()`; a commit that fails may have been carried out.
unfoldable pub commit_with : Option Fault → List Row → Act (Unit {0})
commit_with none rows db = (done tt, record (tick db) { table = rows })
commit_with (some f) rows db =
    (fails f.error, record (tick db) { table = if f.applied then rows else db.table })

unfoldable pub commit : List Row → Act (Unit {0})
unfolding commit_with
commit rows db = commit_with (db.fault db.calls) rows db

-- `Begin` and the two calls of `Prepare`.
unfoldable pub ask : Act (Unit {0})
unfolding call_with
ask db = call_with (db.fault db.calls) (done tt) db

-- The function that `retryPG` calls.
unfoldable pub attempt : List Metrics → Act (Unit {0})
unfolding ask exec_items commit and_then
attempt items db = and_then (ask db) (λ begun d1. and_then (ask d1) (λ gauge_stmt d2.
    and_then (ask d2) (λ counter_stmt d3. and_then (exec_items items d3.table d3) commit)))

unfoldable pub result_of : Try (Unit {0}) → Result (Unit {0})
result_of (done a) = ok tt
result_of (fails e) = err (failure "database")

unfoldable pub update_batch : List Metrics → Exec Db (Unit {0})
unfolding attempt result_of
update_batch [] db = (ok tt, db)
update_batch (m ∷ items) db = let (r, db') = retry_pg (attempt (m ∷ items)) db in (result_of r, db')
