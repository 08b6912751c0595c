-- ===== src/Repository/Pg/Calm.antt =====
-- What the methods of `postgresStorage` do where no call of the database fails: each asks once.
use go_metrics_stas.Prelude.{ℕ, String, ◌≡◌, refl, Option, none, some, false, List}
use go_metrics_stas.Model.{Int64, Float64, gauge, counter}
use go_metrics_stas.Outcome.{counter_not_found, gauge_not_found}
use go_metrics_stas.Repository.Pg.{
  PgError, pg_error, no_rows, done, fails, Row, Db, Act, tick, retry_pg, rounds, after_round,
  is_pg_conn_exception, exec_statement, statement_with, update_gauge, update_counter, upsert_gauge,
  upsert_counter, scanned, call_with, query_row, select, get_gauge, get_counter, value_of,
}

abbrev pub Calm : Db → Type 0
Calm db = (n : ℕ) → db.fault n ≡ none

-- A statement that does not go through leaves the table.
abbrev pub rows_or : Option (List Row) → List Row → List Row
rows_or none rows = rows
rows_or (some out) rows = out

-- An answer of the database that is not tried again.
pub retry_pg-done {ℓ} :
    {A : Type ℓ} (fn : Act A) (db db' : Db) (a : A)
    → fn db ≡ (done a, db')
    → retry_pg fn db ≡ (done a, db')
unfolding retry_pg rounds after_round
retry_pg-done fn db db' a h = rw h refl

pub retry_pg-fails {ℓ} :
    {A : Type ℓ} (fn : Act A) (db db' : Db) (e : PgError)
    → fn db ≡ (fails e, db')
    → is_pg_conn_exception e ≡ false
    → retry_pg fn db ≡ (fails e, db')
unfolding retry_pg rounds after_round
retry_pg-fails fn db db' e h c = rw (h, c) refl

pub out_of_range : is_pg_conn_exception (pg_error "22003") ≡ false
unfolding is_pg_conn_exception
out_of_range = refl

statement :
    (f : List Row → Option (List Row)) (o : Option (List Row)) (db : Db)
    → Calm db
    → f db.table ≡ o
    → (retry_pg (exec_statement f) db).1 ≡ record (tick db) { table = rows_or o db.table }
unfolding exec_statement
statement f none db c h =
    rw
      (retry_pg-fails (exec_statement f) db (tick db) (pg_error "22003")
        (unfold exec_statement statement_with in rw (c db.calls, h) refl) out_of_range)
      refl
statement f (some rows) db c h =
    rw
      (retry_pg-done (exec_statement f) db (record (tick db) { table = rows }) tt
        (unfold exec_statement statement_with in rw (c db.calls, h) refl))
      refl

pub update_gauge-Calm :
    (id : String) (v : Float64) (db : Db)
    → Calm db
    → update_gauge id v db ≡ record (tick db) { table = upsert_gauge id v db.table }
unfolding update_gauge
update_gauge-Calm id v db c = statement (λ rows. some (upsert_gauge id v rows)) (some _) db c refl

pub update_counter-Calm :
    (id : String) (d : Int64) (db : Db)
    → Calm db
    → update_counter id d db
      ≡ record (tick db) { table = rows_or (upsert_counter id d db.table) db.table }
unfolding update_counter
update_counter-Calm id d db c = statement (upsert_counter id d) _ db c refl

query {ℓ} :
    {A : Type ℓ} (column : Row → Option A) (id mtype : String) (o : Option Row) (db : Db)
    → Calm db
    → select id mtype db.table ≡ o
    → retry_pg (query_row column id mtype) db ≡ (scanned column o, tick db)
unfolding scanned
query column id mtype none db c h =
    retry_pg-fails (query_row column id mtype) db (tick db) no_rows
      (unfold query_row call_with scanned in rw (c db.calls, h) refl)
      (unfold is_pg_conn_exception in refl)
query column id mtype (some r) db c h =
    retry_pg-done (query_row column id mtype) db (tick db) (column r)
      (unfold query_row call_with scanned in rw (c db.calls, h) refl)

pub get_gauge-Calm :
    (id : String) (db : Db)
    → Calm db
    → get_gauge id db ≡ (
      value_of gauge_not_found (scanned (λ (r : Row). r.value) (select id gauge db.table)),
      tick db,
    )
unfolding get_gauge
get_gauge-Calm id db c = rw (query (λ (r : Row). r.value) id gauge _ db c refl) refl

pub get_counter-Calm :
    (id : String) (db : Db)
    → Calm db
    → get_counter id db ≡ (
      value_of counter_not_found (scanned (λ (r : Row). r.delta) (select id counter db.table)),
      tick db,
    )
unfolding get_counter
get_counter-Calm id db c = rw (query (λ (r : Row). r.delta) id counter _ db c refl) refl
