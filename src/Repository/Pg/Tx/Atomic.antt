-- ===== src/Repository/Pg/Tx/Atomic.antt =====
-- A batch is stored whole or not at all, whatever fails on the way.
use go_metrics_stas.Prelude.{
  ℕ, suc, String, ◌≡◌, refl, Option, none, some, false, List, [], ◌∷◌, ◌==◌, if◌then◌else◌,
  Bool-cases, Option-cases, inl, inr,
}
use go_metrics_stas.Model.{Int64, Float64, Metrics}
use go_metrics_stas.Outcome.{failure, Result, ok, err}
use go_metrics_stas.Repository.Pg.{
  PgError, Try, done, fails, Row, Fault, Db, Act, tick, call_with, retry_pg, rounds, after_round,
  upsert_gauge, upsert_counter, is_pg_conn_exception,
}
use go_metrics_stas.Repository.Pg.Tx.{
  exec_with, exec_gauge, exec_counter, exec_item, and_then, exec_items, commit_with, commit, ask,
  attempt, result_of, update_batch,
}

-- The rows after one item, and after a batch, where no database fails: none if a sum does not fit.
abbrev pub gauge_row : String → Option Float64 → List Row → List Row
gauge_row id none rows = rows
gauge_row id (some v) rows = upsert_gauge id v rows

abbrev pub counter_row : String → Option Int64 → List Row → Option (List Row)
counter_row id none rows = some rows
counter_row id (some d) rows = upsert_counter id d rows

abbrev pub item_rows : Metrics → List Row → Option (List Row)
item_rows m rows =
    if m.mtype == "gauge"
    then some (gauge_row m.id m.value rows)
    else if m.mtype == "counter"
    then counter_row m.id m.delta rows
    else some rows

abbrev pub then_rows : Option (List Row) → (List Row → Option (List Row)) → Option (List Row)
then_rows none f = none
then_rows (some rows) f = f rows

unfoldable pub batch_rows : List Metrics → List Row → Option (List Row)
batch_rows [] rows = some rows
batch_rows (m ∷ items) rows = then_rows (item_rows m rows) (batch_rows items)

-- What a step of a transaction on some rows may give: the rows that the items ask for, or a fault;
-- the table stays as it is.
data Works (db : Db) (wanted : Option (List Row)) : Try (List Row) × Db → Type 0 where
  worked :
      (rows : List Row) (n : ℕ)
      → wanted ≡ some rows
      → Works db wanted (done rows, record db { calls = n })
  failed : (e : PgError) (n : ℕ) → Works db wanted (fails e, record db { calls = n })

exec_with-Works :
    (o : Option Fault) (rows : Option (List Row)) (db : Db) → Works db rows (exec_with o rows db)
unfolding exec_with
exec_with-Works none none db = failed _ _
exec_with-Works none (some rows) db = worked rows _ refl
exec_with-Works (some f) rows db = failed _ _

exec_gauge-Works :
    (id : String) (o : Option Float64) (rows : List Row) (db : Db)
    → Works db (some (gauge_row id o rows)) (exec_gauge id o rows db)
unfolding exec_gauge
exec_gauge-Works id none rows db = worked rows db.calls refl
exec_gauge-Works id (some v) rows db = exec_with-Works (db.fault db.calls) _ db

exec_counter-Works :
    (id : String) (o : Option Int64) (rows : List Row) (db : Db)
    → Works db (counter_row id o rows) (exec_counter id o rows db)
unfolding exec_counter
exec_counter-Works id none rows db = worked rows db.calls refl
exec_counter-Works id (some d) rows db = exec_with-Works (db.fault db.calls) _ db

exec_item-Works :
    (m : Metrics) (rows : List Row) (db : Db) → Works db (item_rows m rows) (exec_item m rows db)
unfolding exec_item
exec_item-Works m rows db = elim (Bool-cases (m.mtype == "gauge")) [
  | inl a ↦ rw a (exec_gauge-Works m.id m.value rows db)
  | inr a ↦ elim (Bool-cases (m.mtype == "counter")) [
    | inl b ↦ rw (a, b) (exec_counter-Works m.id m.delta rows db)
    | inr b ↦ rw (a, b) (worked rows db.calls refl)
  ]
]

Works-calls :
    (db : Db) (n : ℕ) (o : Option (List Row)) (out : Try (List Row) × Db)
    → Works (record db { calls = n }) o out
    → Works db o out
Works-calls db n o _ (worked rows k h) = worked rows k h
Works-calls db n o _ (failed e k) = failed e k

and_then-Works :
    (db : Db) (o : Option (List Row)) (f : List Row → Option (List Row))
    (g : List Row → Act (List Row)) (out : Try (List Row) × Db)
    → Works db o out
    → ((rows : List Row) (d : Db) → Works d (f rows) (g rows d))
    → Works db (then_rows o f) (and_then out g)
unfolding and_then
and_then-Works db o f g _ (worked rows n h) w =
    rw h (Works-calls db n (f rows) _ (w rows (record db { calls = n })))
and_then-Works db o f g _ (failed e n) w = failed e n

exec_items-Works :
    (items : List Metrics) (rows : List Row) (db : Db)
    → Works db (batch_rows items rows) (exec_items items rows db)
unfolding exec_items batch_rows
exec_items-Works [] rows db = worked rows db.calls refl
exec_items-Works (m ∷ items) rows db =
    and_then-Works db (item_rows m rows) (batch_rows items) (exec_items items) _
      (exec_item-Works m rows db) (exec_items-Works items)

-- What a transaction may give: all of the batch is in the table, or the table is as it was.
data Settled (items : List Metrics) (db : Db) : Try (Unit {0}) × Db → Type 0 where
  stored :
      (rows : List Row) (n : ℕ)
      → batch_rows items db.table ≡ some rows
      → Settled items db (done tt, record db { table = rows; calls = n })
  kept : (e : PgError) (n : ℕ) → Settled items db (fails e, record db { calls = n })

-- No answer is lost: a call that fails has had no effect.
abbrev pub NothingLost : Db → Type 0
NothingLost db = (n : ℕ) (f : Fault) → db.fault n ≡ some f → f.applied ≡ false

module _ (items : List Metrics) where
  Settled-calls :
      (db : Db) (n : ℕ) (out : Try (Unit {0}) × Db)
      → Settled items (record db { calls = n }) out
      → Settled items db out
  Settled-calls db n _ (stored rows k h) = stored rows k h
  Settled-calls db n _ (kept e k) = kept e k

  commit-Settled :
      (rows : List Row) (db : Db)
      → NothingLost db
      → batch_rows items db.table ≡ some rows
      → Settled items db (commit rows db)
  unfolding commit commit_with
  commit-Settled rows db l h = elim (Option-cases (db.fault db.calls)) [
    | inl e ↦ rw e (stored rows _ h)
    | inr (f, e) ↦ rw (e, l _ f e) (kept f.error _)
  ]

  work-Settled :
      (db : Db) (out : Try (List Row) × Db)
      → NothingLost db
      → Works db (batch_rows items db.table) out
      → Settled items db (and_then out commit)
  unfolding and_then
  work-Settled db _ l (worked rows n h) =
      Settled-calls db n _ (commit-Settled rows (record db { calls = n }) l h)
  work-Settled db _ l (failed e n) = kept e n

  ask-Settled :
      (db : Db) (g : Unit {0} → Act (Unit {0}))
      → Settled items (tick db) (g tt (tick db))
      → Settled items db (and_then (ask db) g)
  unfolding ask and_then call_with
  ask-Settled db g h = elim (Option-cases (db.fault db.calls)) [
    | inl e ↦ rw e (Settled-calls db (suc db.calls) _ h)
    | inr (f, e) ↦ rw e (kept f.error _)
  ]

  attempt-Settled : (db : Db) → NothingLost db → Settled items db (attempt items db)
  unfolding attempt
  attempt-Settled db l = ask-Settled db _ (
      ask-Settled (tick db) _ (
        ask-Settled (tick (tick db)) _
          (work-Settled (tick (tick (tick db))) _ l (exec_items-Works items db.table _))))

  after_round-Settled :
      (db : Db) (again : Act (Unit {0})) (out : Try (Unit {0}) × Db)
      → ((d : Db) → NothingLost d → Settled items d (again d))
      → NothingLost db
      → Settled items db out
      → Settled items db (after_round again out)
  unfolding after_round
  after_round-Settled db again _ w l (stored rows n h) = stored rows n h
  after_round-Settled db again _ w l (kept e n) = elim (Bool-cases (is_pg_conn_exception e)) [
    | inl c ↦ rw c (Settled-calls db n _ (w (record db { calls = n }) l))
    | inr c ↦ rw c (kept e n)
  ]

  rounds-Settled :
      (waits : List ℕ) (db : Db)
      → NothingLost db
      → Settled items db (rounds (attempt items) waits db)
  unfolding rounds
  rounds-Settled [] db l = attempt-Settled db l
  rounds-Settled (t ∷ waits) db l =
      after_round-Settled db (rounds (attempt items) waits) (attempt items db)
        (rounds-Settled waits) l (attempt-Settled db l)

-- What a batch answers, and the table after it.
pub data BatchResult (items : List Metrics) (old : List Row)
    : Result (Unit {0}) → List Row → Type 0 where
  all_stored :
      (rows : List Row) → batch_rows items old ≡ some rows → BatchResult items old (ok tt) rows
  none_stored : BatchResult items old (err (failure "database")) old

settle :
    (items : List Metrics) (db : Db) (out : Try (Unit {0}) × Db)
    → Settled items db out
    → BatchResult items db.table (result_of out.0) out.1.table
unfolding result_of
settle items db _ (stored rows n h) = all_stored rows h
settle items db _ (kept e n) = none_stored

-- Where no answer of the database is lost, a batch that succeeds has stored all of its items, the
-- ones before seen by the ones after, and a batch that fails, however often and wherever the database
-- failed in the up to four transactions, has left the table as it was.
pub update_batch_atomic :
    (items : List Metrics) (db : Db)
    → NothingLost db
    → BatchResult items db.table (update_batch items db).0 (update_batch items db).1.table
unfolding update_batch retry_pg
update_batch_atomic [] db l = unfold batch_rows in all_stored db.table refl
update_batch_atomic (m ∷ items) db l =
    settle (m ∷ items) db _ (rounds-Settled (m ∷ items) (1 ∷ 3 ∷ 5 ∷ []) db l)
