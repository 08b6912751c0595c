-- ===== src/Repository/Pg/Sample.antt =====
-- A database, the metrics in memory that its table shows, and some calls.
use go_metrics_stas.Prelude.{◌^◌, ◌-◌, refl, none, some, List, [], ◌∷◌, arith, eq_iff}
use go_metrics_stas.Dict.{get}
use go_metrics_stas.Repository.Mem.{of_gauge, of_counter, MemStorage}
use go_metrics_stas.Repository.Pg.{Db, select}
use go_metrics_stas.Repository.Pg.View.{gauge_at, counter_at}
use go_metrics_stas.Repository.Pg.Checked.{Shows}
use go_metrics_stas.Repository.Pg.Refines.{
  Call, counter_add, batch, gauge_of, counter_of, Simulates,
}

-- A calm database that shows a counter and a gauge; the row of another kind is shown by no read.
abbrev pub calm_db : Db
calm_db = record {
  table =
      record { id = "a"; mtype = "counter"; value = none; delta = some 40 }
      ∷ record { id = "a"; mtype = "gauge"; value = some 7; delta = none }
      ∷ [];
  calls = 0;
  fault = λ n. none;
}

abbrev pub calm_mem : MemStorage
calm_mem = record { gauges = ("a", 7) ∷ []; counters = ("a", 40) ∷ [] }

shows : Shows calm_db.table calm_mem
unfolding gauge_at counter_at select get
shows = record {
  gauges = λ j. ground (arith, eq_iff "a" j);
  counters = λ j. ground (arith, eq_iff "a" j);
}

pub simulates : Simulates calm_db calm_mem
simulates = record { calm = λ n. refl; shows = shows }

-- The batch asks for a sum that does not fit, after a gauge that is then not stored either.
abbrev pub mixed_calls : List Call
mixed_calls =
    counter_add "a" 2
    ∷ batch (of_gauge "a" 9 ∷ of_counter "a" (2 ^ 63 - 1) ∷ [])
    ∷ gauge_of "a"
    ∷ counter_of "a"
    ∷ counter_of "b"
    ∷ []
