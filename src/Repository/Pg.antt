-- ===== src/Repository/Pg.antt =====
-- internal/repository/pgstorage.go: `postgresStorage`, with the table that
-- migrations/000001_init.up.sql creates. The database is the list of the rows and the faults to come,
-- one for each call of database/sql; a call that fails may have taken effect all the same, when only
-- its answer was lost.
pub mod Tx
pub mod Outage
pub mod View
pub mod Calm
pub mod Checked
pub mod Refines
pub mod Sample
pub mod Agrees
mod Tests
use go_metrics_stas.Prelude.{
  ℕ, zero, suc, ◌+◌, ◌%◌, ◌^◌, String, Option, none, some, Bool, true, false, not, ◌&&◌, ◌||◌, List,
  [], ◌∷◌, ◌==◌, leb, if◌then◌else◌, starts_with,
}
use go_metrics_stas.Dict.{Dict, put}
use go_metrics_stas.Model.{Int64, Float64, Metrics, gauge, counter, add_int64}
use go_metrics_stas.Repository.Mem.{or_zero}
use go_metrics_stas.Outcome.{
  Error, counter_not_found, gauge_not_found, failure, Result, ok, err, Exec,
}

pub data PgError : Type 0 where
  -- `driver.ErrBadConn` and `sql.ErrNoRows`
  bad_conn no_rows : PgError
  -- `pgconn.PgError`, by its code
  pg_error : String → PgError
  other : String → PgError

pub data Try {ℓ} (A : Type ℓ) : Type ℓ where
  done : A → Try A
  fails : PgError → Try A

-- The codes of the `switch`, from connection_exception to cannot_connect_now.
conn_code : String → Bool
conn_code c =
    c == "08000"
    || c == "08003"
    || c == "08006"
    || c == "08001"
    || c == "08004"
    || c == "08007"
    || c == "08P01"
    || c == "40000"
    || c == "40001"
    || c == "40P01"
    || c == "57P03"

unfoldable pub is_pg_conn_exception : PgError → Bool
unfolding conn_code
is_pg_conn_exception bad_conn = true
is_pg_conn_exception no_rows = false
is_pg_conn_exception (pg_error code) =
    starts_with code "08" || starts_with code "40" || conn_code code
is_pg_conn_exception (other text) = false

pub record Row : Type 0 where
  pub id : String
  pub mtype : String
  pub value : Option Float64
  pub delta : Option Int64

pub record Fault : Type 0 where
  pub error : PgError
  pub applied : Bool

pub record Db : Type 0 where
  pub table : List Row
  pub calls : ℕ
  pub fault : ℕ → Option Fault

abbrev pub Act {ℓ} : Type ℓ → Type ℓ
Act A = Db → Try A × Db

-- Seconds.
abbrev pub retry_schedule : List ℕ
retry_schedule = 1 ∷ 3 ∷ 5 ∷ []

-- What follows a round that is not the last.
unfoldable pub after_round {ℓ} : {A : Type ℓ} → Act A → Try A × Db → Try A × Db
after_round again (done a, db) = (done a, db)
after_round again (fails e, db) = if is_pg_conn_exception e then again db else (fails e, db)

-- The rounds of the loop of `retryPG` when these waits are left.
unfoldable pub rounds {ℓ} : {A : Type ℓ} → Act A → List ℕ → Act A
unfolding after_round
rounds fn [] db = fn db
rounds fn (t ∷ waits) db = after_round (rounds fn waits) (fn db)

unfoldable pub retry_pg {ℓ} : {A : Type ℓ} → Act A → Act A
unfolding rounds
retry_pg fn db = rounds fn retry_schedule db

-- The two upserts. The sum of two BIGINTs is out of range where it does not fit.
unfoldable pub upsert_gauge : String → Float64 → List Row → List Row
upsert_gauge id v [] = record { id = id; mtype = gauge; value = some v; delta = none } ∷ []
upsert_gauge id v (r ∷ rows) =
    let rest = upsert_gauge id v rows in
    if r.id == id && r.mtype == gauge then record r { value = some v } ∷ rows else r ∷ rest

abbrev negative : Int64 → Bool
negative a = leb (2 ^ 63) a

abbrev same : Bool → Bool → Bool
same true b = b
same false b = not b

unfoldable pub add_bigint : Int64 → Int64 → Option Int64
add_bigint a b =
    let c = add_int64 a b in
    if same (negative a) (negative b) && not (same (negative c) (negative a)) then none else some c

abbrev pub cons_row : Row → Option (List Row) → Option (List Row)
cons_row r none = none
cons_row r (some rows) = some (r ∷ rows)

pub with_delta : Row → Option Int64 → List Row → Option (List Row)
with_delta r none rows = none
with_delta r (some d) rows = some (record r { delta = some d } ∷ rows)

unfoldable pub upsert_counter : String → Int64 → List Row → Option (List Row)
unfolding with_delta
upsert_counter id d [] =
    some (record { id = id; mtype = counter; value = none; delta = some d } ∷ [])
upsert_counter id d (r ∷ rows) =
    let rest = upsert_counter id d rows in
    if r.id == id && r.mtype == counter
    then with_delta r (add_bigint (or_zero r.delta) d) rows
    else cons_row r rest

-- `WHERE id = $1 AND mtype = …`
unfoldable pub select : String → String → List Row → Option Row
select id mtype [] = none
select id mtype (r ∷ rows) =
    let rest = select id mtype rows in if r.id == id && r.mtype == mtype then some r else rest

abbrev pub tick : Db → Db
tick db = record db { calls = suc db.calls }

-- A call that asks and changes nothing.
unfoldable pub call_with {ℓ} : {A : Type ℓ} → Option Fault → Try A → Act A
call_with none a db = (a, tick db)
call_with (some f) a db = (fails f.error, tick db)

-- A statement outside of a transaction.
unfoldable pub statement_with : Option Fault → Option (List Row) → Act (Unit {0})
statement_with none none db = (fails (pg_error "22003"), tick db)
statement_with none (some rows) db = (done tt, record (tick db) { table = rows })
statement_with (some f) none db = (fails f.error, tick db)
statement_with (some f) (some rows) db =
    (fails f.error, record (tick db) { table = if f.applied then rows else db.table })

unfoldable pub exec_statement : (List Row → Option (List Row)) → Act (Unit {0})
unfolding statement_with
exec_statement f db = statement_with (db.fault db.calls) (f db.table) db

unfoldable pub update_gauge : String → Float64 → Db → Db
unfolding exec_statement upsert_gauge
update_gauge id value db =
    (retry_pg (exec_statement (λ rows. some (upsert_gauge id value rows))) db).1

unfoldable pub update_counter : String → Int64 → Db → Db
unfolding exec_statement upsert_counter
update_counter id delta db = (retry_pg (exec_statement (upsert_counter id delta)) db).1

-- `QueryRow(…).Scan(&v)`: the column of the row that is found; a NULL is none.
unfoldable pub scanned {ℓ} : {A : Type ℓ} → (Row → Option A) → Option Row → Try (Option A)
scanned column none = fails no_rows
scanned column (some r) = done (column r)

unfoldable pub query_row {ℓ} : {A : Type ℓ} → (Row → Option A) → String → String → Act (Option A)
unfolding scanned call_with
query_row column id mtype db =
    call_with (db.fault db.calls) (scanned column (select id mtype db.table)) db

unfoldable pub value_of {ℓ} : {A : Type ℓ} → Error → Try (Option A) → Result A
value_of missing (done (some a)) = ok a
value_of missing (done none) = err missing
value_of missing (fails no_rows) = err missing
value_of missing (fails e) = err (failure "database")

unfoldable pub get_gauge : String → Exec Db Float64
unfolding query_row value_of
get_gauge id db =
    let (r, db') = retry_pg (query_row (λ (r : Row). r.value) id gauge) db in
    (value_of gauge_not_found r, db')

unfoldable pub get_counter : String → Exec Db Int64
unfolding query_row value_of
get_counter id db =
    let (r, db') = retry_pg (query_row (λ (r : Row). r.delta) id counter) db in
    (value_of counter_not_found r, db')

-- The loop over the rows of `GetAllMetrics`.
unfoldable pub put_rows : List Row → Dict Metrics → Dict Metrics
put_rows [] out = out
put_rows (r ∷ rows) out = put_rows rows (
    put r.id (record { id = r.id; mtype = r.mtype; delta = r.delta; value = r.value; hash = "" })
      out)

all_of : Try (List Row) → Result (Dict Metrics)
unfolding put_rows
all_of (done rows) = ok (put_rows rows [])
all_of (fails e) = err (failure "database")

-- Reading the rows that a query has opened may fail too; it is not tried again.
iterate : Try (List Row) × Db → Try (List Row) × Db
unfolding call_with
iterate (done rows, db) = call_with (db.fault db.calls) (done rows) db
iterate (fails e, db) = (fails e, db)

-- The loop of `queryAllMetrics` is that of `retryPG`, around `Query`.
unfoldable pub query_all_metrics : Act (List Row)
unfolding iterate
query_all_metrics db =
    iterate (retry_pg (λ (d : Db). call_with (d.fault d.calls) (done d.table) d) db)

unfoldable pub get_all_metrics : Exec Db (Dict Metrics)
unfolding query_all_metrics all_of
get_all_metrics db = let (r, db') = query_all_metrics db in (all_of r, db')
