-- ===== src/Repository/Pg/Outage.antt =====
-- `retryPG` around a single statement: what it rides out, and what it cannot tell.
use go_metrics_stas.Prelude.{
  ℕ, zero, suc, ◌+◌, ◌≤◌, String, ◌≡◌, refl, ap, ◌∙◌, Option, none, some, true, false, List, [],
  ◌∷◌, if◌then◌else◌, length, arith,
}
use go_metrics_stas.Model.{Int64}
use go_metrics_stas.Repository.Pg.{
  Try, done, fails, Row, Fault, Db, tick, retry_pg, rounds, after_round, exec_statement,
  statement_with, update_counter, upsert_counter, is_pg_conn_exception,
}

-- A fault of the connection that kept the statement from having an effect.
abbrev pub Drops : Option Fault → Type 0
Drops o = (f : Fault) × (o ≡ some f) × (is_pg_conn_exception f.error ≡ true) × (f.applied ≡ false)

-- The next `k` calls drop, and the call behind them succeeds.
abbrev pub Outage : Db → ℕ → Type 0
Outage db zero = db.fault db.calls ≡ none
Outage db (suc k) = Drops (db.fault db.calls) × Outage (tick db) k

module _ (stmt : List Row → Option (List Row)) where
  statement-fails :
      (db : Db) (rows : List Row) (f : Fault)
      → stmt db.table ≡ some rows
      → db.fault db.calls ≡ some f
      → exec_statement stmt db
        ≡ (fails f.error, record (tick db) { table = if f.applied then rows else db.table })
  unfolding exec_statement statement_with
  statement-fails db rows f s h = rw (h, s) refl

  statement-done :
      (db : Db) (rows : List Row)
      → stmt db.table ≡ some rows
      → db.fault db.calls ≡ none
      → exec_statement stmt db ≡ (done tt, record (tick db) { table = rows })
  unfolding exec_statement statement_with
  statement-done db rows s h = rw (h, s) refl

  rounds-done :
      (waits : List ℕ) (db : Db) (rows : List Row)
      → stmt db.table ≡ some rows
      → db.fault db.calls ≡ none
      → rounds (exec_statement stmt) waits db ≡ (done tt, record (tick db) { table = rows })
  unfolding rounds after_round
  rounds-done [] db rows s h = statement-done db rows s h
  rounds-done (t ∷ waits) db rows s h = rw (statement-done db rows s h) refl

  rounds-fails :
      (t : ℕ) (waits : List ℕ) (db : Db) (rows : List Row) (f : Fault)
      → stmt db.table ≡ some rows
      → db.fault db.calls ≡ some f
      → is_pg_conn_exception f.error ≡ true
      → rounds (exec_statement stmt) (t ∷ waits) db
        ≡ rounds
            (exec_statement stmt)
            waits
            (record (tick db) { table = if f.applied then rows else db.table })
  unfolding rounds after_round
  rounds-fails t waits db rows f s h c = rw (statement-fails db rows f s h, c) refl

  rounds-Outage :
      (k : ℕ) (waits : List ℕ) (db : Db) (rows : List Row)
      → k ≤ length waits
      → stmt db.table ≡ some rows
      → Outage db k
      → rounds (exec_statement stmt) waits db
        ≡ (done tt, record db { table = rows; calls = suc (db.calls + k) })
  rounds-Outage zero waits db rows l s o =
      rounds-done waits db rows s o
      ∙ ap (λ n. (done tt, record db { table = rows; calls = n })) (omega arith)
  rounds-Outage (suc k) [] db rows l s o = absurd (omega arith)
  rounds-Outage (suc k) (t ∷ waits) db rows l s ((f, h, c, a), o) =
      rounds-fails t waits db rows f s h c
      ∙ rw a refl
      ∙ rounds-Outage k waits (tick db) rows (omega arith) s o
      ∙ ap (λ n. (done tt, record db { table = rows; calls = n })) (omega arith)

-- An update of a counter that meets up to three dropped connections in a row is stored, once, by the
-- call behind them, and no call follows.
pub update_counter-Outage :
    (id : String) (d : Int64) (db : Db) (k : ℕ) (rows : List Row)
    → k ≤ 3
    → upsert_counter id d db.table ≡ some rows
    → Outage db k
    → update_counter id d db ≡ record db { table = rows; calls = suc (db.calls + k) }
unfolding update_counter retry_pg
update_counter-Outage id d db k rows l s o =
    ap (λ (out : Try (Unit {0}) × Db). out.1)
      (rounds-Outage (upsert_counter id d) k (1 ∷ 3 ∷ 5 ∷ []) db rows l s o)

-- Where the connection drops behind the statement, so that it has had its effect and only the answer
-- is lost, the update is tried again and the delta counts twice.
pub update_counter_twice :
    (id : String) (d : Int64) (db : Db) (rows rows' : List Row) (f : Fault)
    → upsert_counter id d db.table ≡ some rows
    → upsert_counter id d rows ≡ some rows'
    → db.fault db.calls ≡ some f
    → is_pg_conn_exception f.error ≡ true
    → f.applied ≡ true
    → db.fault (suc db.calls) ≡ none
    → (update_counter id d db).table ≡ rows'
unfolding update_counter retry_pg
update_counter_twice id d db rows rows' f s s' h c a n =
    let stmt = upsert_counter id d in
    ap (λ (out : Try (Unit {0}) × Db). out.1.table)
      (rounds-fails stmt 1 (3 ∷ 5 ∷ []) db rows f s h c
        ∙ rw a refl
        ∙ rounds-done stmt (3 ∷ 5 ∷ []) (record (tick db) { table = rows }) rows' s' n)
