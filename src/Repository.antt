-- ===== src/Repository.antt =====
-- internal/repository/storage.go: the interface `Storage`. Its laws are in `Repository/Lawful`; the
-- storage in memory is in `Repository/Mem`.
pub mod Mem
pub mod Batch
pub mod Lawful
pub mod File
pub mod Pg
pub mod Factory
use go_metrics_stas.Prelude.{String, List}
use go_metrics_stas.Dict.{Dict}
use go_metrics_stas.Model.{Int64, Float64, Metrics}
use go_metrics_stas.Outcome.{Exec}

-- A read may change the state too: that of a remote database holds the faults to come.
pub record Storage (S : Type 0) : Type 0 where
  pub update_gauge : String → Float64 → S → S
  pub update_counter : String → Int64 → S → S
  pub get_gauge : String → Exec S Float64
  pub get_counter : String → Exec S Int64
  pub get_all_metrics : Exec S (Dict Metrics)
  pub update_batch : List Metrics → Exec S (Unit {0})
