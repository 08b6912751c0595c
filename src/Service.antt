-- ===== src/Service.antt =====
-- internal/service/metrics_service.go: `metricsService` over a `Storage`.
pub mod Alike
pub mod OverPg
pub mod Laws
pub mod Batch
mod Tests
use go_metrics_stas.Prelude.{
  String, Option, none, some, Bool, true, false, List, [], ◌∷◌, ◌==◌, if◌then◌else◌,
}
use go_metrics_stas.Dict.{Dict}
use go_metrics_stas.Model.{Int64, Float64, Metrics}
use go_metrics_stas.Outcome.{
  Error, counter_not_found, gauge_not_found, invalid_metric_type, metric_not_found,
  invalid_metric_id, missing_value, missing_delta, Result, ok, err, Exec, pure, raise, modify,
  ◌>>=◌, ◌>>◌,
}
use go_metrics_stas.Repository.{Storage}

-- `errors.Is(err, repository.ErrGaugeNotFound)`, and the error that is returned then.
hide_gauge : Error → Error
hide_gauge gauge_not_found = metric_not_found
hide_gauge e = e

hide_counter : Error → Error
hide_counter counter_not_found = metric_not_found
hide_counter e = e

abbrev map_error {ℓ} : {A : Type ℓ} → (Error → Error) → Result A → Result A
map_error f (ok a) = ok a
map_error f (err e) = err (f e)

abbrev on_error {ℓ κ} : {S : Type ℓ} {A : Type κ} → (Error → Error) → Exec S A → Exec S A
on_error f m s = let (r, s') = m s in (map_error f r, s')

module _ {S : Type 0} (repo : Storage S) where
  unfoldable pub update_gauge : String → Float64 → Exec S (Unit {0})
  update_gauge id value =
      if id == "" then raise invalid_metric_id else modify (repo.update_gauge id value)

  unfoldable pub update_counter : String → Int64 → Exec S Int64
  update_counter id delta =
      if id == ""
      then raise invalid_metric_id
      else do modify (repo.update_counter id delta); repo.get_counter id

  unfoldable pub get_gauge : String → Exec S Float64
  unfolding hide_gauge
  get_gauge id =
      if id == "" then raise invalid_metric_id else on_error hide_gauge (repo.get_gauge id)

  unfoldable pub get_counter : String → Exec S Int64
  unfolding hide_counter
  get_counter id =
      if id == "" then raise invalid_metric_id else on_error hide_counter (repo.get_counter id)

  unfoldable pub get_all_metrics : Exec S (Dict Metrics)
  get_all_metrics = repo.get_all_metrics

  unfoldable pub batch_gauge : String → Option Float64 → Exec S (Unit {0})
  batch_gauge id none = raise missing_value
  batch_gauge id (some v) = modify (repo.update_gauge id v)

  unfoldable pub batch_counter : String → Option Int64 → Exec S (Unit {0})
  batch_counter id none = raise missing_delta
  batch_counter id (some d) = modify (repo.update_counter id d)

  -- One round of the loop of `UpdateBatch`.
  unfoldable pub update_item : Metrics → Exec S (Unit {0})
  unfolding batch_gauge batch_counter
  update_item m =
      if m.id == ""
      then raise invalid_metric_id
      else if m.mtype == "gauge"
      then batch_gauge m.id m.value
      else if m.mtype == "counter"
      then batch_counter m.id m.delta
      else raise invalid_metric_type

  unfoldable pub update_batch : List Metrics → Exec S (Unit {0})
  update_batch [] = pure tt
  update_batch (m ∷ items) = do update_item m; update_batch items
