-- ===== src/Repository/Factory.antt =====
-- internal/config/db/db.go (`New`) and internal/repository/factory.go (`NewStorage`): which storage a
-- server has, and when it starts. What database/sql and golang-migrate give is an argument.
use go_metrics_stas.Prelude.{
  ℕ, String, ◌≡◌, ◌≢◌, ◌⊎◌, inl, inr, refl, sym, ◌∙◌, ap, Option, none, some, Bool, not, ◌==◌,
  if◌then◌else◌,
}
use go_metrics_stas.Prelude.Text.{eq_false_of_ne}
use go_metrics_stas.Dict.{Dict}
use go_metrics_stas.Outcome.{Result, ok, err, failure}
use go_metrics_stas.Outcome.Results.{◌>>=◌, bind-eq-ok, ok-inj}
use go_metrics_stas.Repository.Mem.{MemStorage, new_mem_storage}
use go_metrics_stas.Repository.File.{Bytes, Codec, Weather, FileStorage}
use go_metrics_stas.Repository.File.Start.{FileConfig, new_file_storage}
use go_metrics_stas.Repository.Pg.{Db}

-- How `m.Up()` ends.
pub data Migration : Type 0 where
  migrated no_change : Migration
  up_failed : String → Migration

-- `sql.Open`, and in the hook `OnStart` the ping and the steps of the migration.
pub record Opening : Type 0 where
  pub open_db : String → Result Db
  pub ping : Result (Unit {0})
  pub with_instance : Result (Unit {0})
  pub new_migrate : Result (Unit {0})
  pub up : Migration

-- Without a DSN there is no database.
unfoldable pub new_db : Opening → String → Result (Option Db)
new_db opening dsn = if dsn == "" then ok none else do db ← opening.open_db dsn; ok (some db)

unfoldable pub up_result : Migration → Result (Unit {0})
up_result migrated = ok tt
up_result no_change = ok tt
up_result (up_failed text) = err (failure text)

-- The hook `OnStart`.
unfoldable pub start_db : Opening → Result (Unit {0})
unfolding up_result
start_db opening = do
  pinged ← opening.ping
  driver ← opening.with_instance
  m ← opening.new_migrate
  up_result opening.up

pub data Chosen : Type 0 where
  in_database : Db → Chosen
  in_file : FileStorage → Chosen
  in_memory : MemStorage → Chosen

module _ (codec : Codec) where
  abbrev file_chosen : Result FileStorage → Result Chosen
  file_chosen (ok s) = ok (in_file s)
  file_chosen (err e) = err e

  unfoldable pub new_storage :
      Option Db → FileConfig → Bool → Dict Bytes → (ℕ → Weather) → Result Chosen
  new_storage (some db) cfg open_fails disk weather = ok (in_database db)
  new_storage none cfg open_fails disk weather =
      if not (cfg.file_storage_path == "")
      then file_chosen (new_file_storage codec cfg open_fails disk weather)
      else ok (in_memory new_mem_storage)

  -- Both, as fx runs them.
  unfoldable pub choose_storage :
      Opening → String → FileConfig → Bool → Dict Bytes → (ℕ → Weather) → Result Chosen
  choose_storage opening dsn cfg open_fails disk weather = do
    db ← new_db opening dsn
    new_storage db cfg open_fails disk weather

  new_db-eq-ok :
      (opening : Opening) (dsn : String) (o : Option Db)
      → dsn ≢ ""
      → new_db opening dsn ≡ ok o
      → (db : Db) × (opening.open_db dsn ≡ ok db) × (o ≡ some db)
  unfolding new_db
  new_db-eq-ok opening dsn o n h =
      let opened : (opening.open_db dsn >>= λ db. ok (some db)) ≡ ok o =
        sym (rw (eq_false_of_ne n) refl) ∙ h in
      let (db, e, same) = bind-eq-ok (opening.open_db dsn) (λ db. ok (some db)) o opened in
      (db, e, sym (ok-inj same))

  -- A server with a DSN that starts keeps its metrics in that database, and never elsewhere.
  choose_storage-eq-ok :
      (opening : Opening) (dsn : String) (cfg : FileConfig) (open_fails : Bool) (disk : Dict Bytes)
      (weather : ℕ → Weather) (c : Chosen)
      → dsn ≢ ""
      → choose_storage opening dsn cfg open_fails disk weather ≡ ok c
      → (db : Db) × (opening.open_db dsn ≡ ok db) × (c ≡ in_database db)
  unfolding choose_storage new_storage
  choose_storage-eq-ok opening dsn cfg open_fails disk weather c n h =
      let (o, made, chosen) =
        bind-eq-ok (new_db opening dsn) (λ db. new_storage db cfg open_fails disk weather) c h in
      let (db, e, some_db) = new_db-eq-ok opening dsn o n made in
      let kept : new_storage (some db) cfg open_fails disk weather ≡ ok c =
        ap (λ x. new_storage x cfg open_fails disk weather) (sym some_db) ∙ chosen in
      (db, e, sym (ok-inj kept))

up_result-eq-ok : (m : Migration) → up_result m ≡ ok tt → (m ≡ migrated) ⊎ (m ≡ no_change)
unfolding up_result
up_result-eq-ok migrated h = inl refl
up_result-eq-ok no_change h = inr refl
up_result-eq-ok (up_failed text) h = absurd (cc)

-- A server that starts has reached its database, and its tables are there.
start_db-eq-ok :
    (opening : Opening)
    → start_db opening ≡ ok tt
    → (opening.ping ≡ ok tt) × ((opening.up ≡ migrated) ⊎ (opening.up ≡ no_change))
unfolding start_db
start_db-eq-ok opening h =
    let (pinged, p, h1) = bind-eq-ok opening.ping _ tt h in
    let (driver, d, h2) = bind-eq-ok opening.with_instance _ tt h1 in
    let (made, m, h3) = bind-eq-ok opening.new_migrate _ tt h2 in (p, up_result-eq-ok opening.up h3)
