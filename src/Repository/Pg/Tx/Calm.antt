-- ===== src/Repository/Pg/Tx/Calm.antt =====
-- A batch where no call of the database fails: one transaction, with all of its statements.
use go_metrics_stas.Prelude.{
  ℕ, suc, String, ◌≡◌, refl, ◌∙◌, Option, none, some, List, [], ◌∷◌, ◌==◌, Bool-cases, inl, inr,
}
use go_metrics_stas.Model.{Int64, Float64, Metrics}
use go_metrics_stas.Outcome.{failure, ok, err, Result}
use go_metrics_stas.Repository.Pg.{
  pg_error, Try, done, fails, Row, Db, Act, tick, retry_pg, call_with,
}
use go_metrics_stas.Repository.Pg.Tx.{
  exec_with, exec_stmt, exec_gauge, exec_counter, exec_item, and_then, exec_items, commit_with,
  commit, ask, attempt, result_of, update_batch,
}
use go_metrics_stas.Repository.Pg.Tx.Atomic.{
  gauge_row, counter_row, item_rows, then_rows, batch_rows,
}
use go_metrics_stas.Repository.Pg.Calm.{Calm, rows_or, retry_pg-done, retry_pg-fails, out_of_range}

-- The answer of a transaction that asks for these rows.
abbrev tried : Option (List Row) → Try (List Row)
tried none = fails (pg_error "22003")
tried (some rows) = done rows

-- A step of a transaction that asks for some rows: it gets them, and the table stays.
abbrev Asks : Db → Option (List Row) → Try (List Row) × Db → Type 0
Asks db o out = (n : ℕ) × (out ≡ (tried o, record db { calls = n }))

exec_stmt-Asks : (o : Option (List Row)) (db : Db) → Calm db → Asks db o (exec_stmt o db)
unfolding exec_stmt exec_with
exec_stmt-Asks none db c = (suc db.calls, rw (c db.calls) refl)
exec_stmt-Asks (some rows) db c = (suc db.calls, rw (c db.calls) refl)

exec_gauge-Asks :
    (id : String) (o : Option Float64) (rows : List Row) (db : Db)
    → Calm db
    → Asks db (some (gauge_row id o rows)) (exec_gauge id o rows db)
unfolding exec_gauge
exec_gauge-Asks id none rows db c = (db.calls, refl)
exec_gauge-Asks id (some v) rows db c = exec_stmt-Asks (some _) db c

exec_counter-Asks :
    (id : String) (o : Option Int64) (rows : List Row) (db : Db)
    → Calm db
    → Asks db (counter_row id o rows) (exec_counter id o rows db)
unfolding exec_counter
exec_counter-Asks id none rows db c = (db.calls, refl)
exec_counter-Asks id (some d) rows db c = exec_stmt-Asks _ db c

exec_item-Asks :
    (m : Metrics) (rows : List Row) (db : Db)
    → Calm db
    → Asks db (item_rows m rows) (exec_item m rows db)
unfolding exec_item
exec_item-Asks m rows db c = elim (Bool-cases (m.mtype == "gauge")) [
  | inl a ↦ rw a (exec_gauge-Asks m.id m.value rows db c)
  | inr a ↦ elim (Bool-cases (m.mtype == "counter")) [
    | inl b ↦ rw (a, b) (exec_counter-Asks m.id m.delta rows db c)
    | inr b ↦ rw (a, b) (db.calls, refl)
  ]
]

-- The rest of the loop, behind an item that asked for `o`.
and_then-Asks :
    (f : List Row → Option (List Row)) (g : List Row → Act (List Row))
    → ((rows : List Row) (d : Db) → Calm d → Asks d (f rows) (g rows d))
    → (o : Option (List Row)) (db : Db) → Calm db
    → Asks db (then_rows o f) (and_then (tried o, db) g)
unfolding and_then
and_then-Asks f g h none db c = (db.calls, refl)
and_then-Asks f g h (some rows) db c = h rows db c

exec_items-Asks :
    (items : List Metrics) (rows : List Row) (db : Db)
    → Calm db
    → Asks db (batch_rows items rows) (exec_items items rows db)
unfolding exec_items batch_rows
exec_items-Asks [] rows db c = (db.calls, refl)
exec_items-Asks (m ∷ items) rows db c =
    let (n, h) = exec_item-Asks m rows db c in
    let (k, e) =
      and_then-Asks (batch_rows items) (exec_items items) (exec_items-Asks items) (item_rows m rows)
        (record db { calls = n }) c in
    (k, rw h e)

-- The answer of a batch.
abbrev pub batch_answer : Option (List Row) → Result (Unit {0})
batch_answer none = err (failure "database")
batch_answer (some rows) = ok tt

-- What its one transaction gives.
abbrev settled : Option (List Row) → Try (Unit {0})
settled none = fails (pg_error "22003")
settled (some rows) = done tt

ask-done : (db : Db) → Calm db → ask db ≡ (done tt, tick db)
unfolding ask call_with
ask-done db c = rw (c db.calls) refl

-- The transaction of a batch, with the three calls before its loop.
begins :
    (items : List Metrics) (db : Db)
    → Calm db
    → attempt items db ≡ and_then (exec_items items db.table (tick (tick (tick db)))) commit
unfolding attempt and_then
begins items db c = rw (ask-done db c, ask-done (tick db) c, ask-done (tick (tick db)) c) refl

-- After the loop: the commit, or the fault of the loop.
ends-Asks :
    (o : Option (List Row)) (db : Db)
    → Calm db
    → (n : ℕ) × (and_then (tried o, db) commit
        ≡ (settled o, record db { table = rows_or o db.table; calls = n }))
unfolding and_then commit commit_with
ends-Asks none db c = (db.calls, refl)
ends-Asks (some rows) db c = (suc db.calls, rw (c db.calls) refl)

attempt-Calm :
    (items : List Metrics) (db : Db)
    → Calm db
    → (n : ℕ) × (attempt items db ≡ (
      settled (batch_rows items db.table),
      record db { table = rows_or (batch_rows items db.table) db.table; calls = n },
    ))
attempt-Calm items db c =
    let (n, h) = exec_items-Asks items db.table (tick (tick (tick db))) c in
    let (k, e) = ends-Asks (batch_rows items db.table) (record db { calls = n }) c in
    (k, begins items db c ∙ rw h e)

retry-settled :
    (o : Option (List Row)) (fn : Act (Unit {0})) (db db' : Db)
    → fn db ≡ (settled o, db')
    → retry_pg fn db ≡ (settled o, db')
retry-settled none fn db db' h = retry_pg-fails fn db db' (pg_error "22003") h out_of_range
retry-settled (some rows) fn db db' h = retry_pg-done fn db db' tt h

result_of-settled : (o : Option (List Row)) → result_of (settled o) ≡ batch_answer o
unfolding result_of
result_of-settled none = refl
result_of-settled (some rows) = refl

pub update_batch-Calm :
    (items : List Metrics) (db : Db)
    → Calm db
    → (n : ℕ) × (update_batch items db ≡ (
      batch_answer (batch_rows items db.table),
      record db { table = rows_or (batch_rows items db.table) db.table; calls = n },
    ))
unfolding update_batch
update_batch-Calm [] db c = (db.calls, unfold batch_rows in refl)
update_batch-Calm (m ∷ items) db c =
    let (n, h) = attempt-Calm (m ∷ items) db c in
    (
      n,
      rw
          (
            retry-settled (batch_rows (m ∷ items) db.table) (attempt (m ∷ items)) db _ h,
            result_of-settled (batch_rows (m ∷ items) db.table),
          )
          refl,
    )
