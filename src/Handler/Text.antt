-- ===== src/Handler/Text.antt =====
-- internal/handler/handler.go: `UpdateMetric` and `GetMetricValue`.
pub mod Laws
pub mod Reads
use go_metrics_stas.Prelude.{
  ℕ, String, Option, none, some, Bool, List, [], ◌∷◌, ◌==◌, ◌||◌, if◌then◌else◌,
}
use go_metrics_stas.Http.{Request, Writer, set_header, write_header, write, http_error, url_param}
use go_metrics_stas.Model.{Int64, Float64}
use go_metrics_stas.Outcome.{Error, metric_not_found, Result, ok, err}
use go_metrics_stas.Repository.{Storage}
use go_metrics_stas.Service
use go_metrics_stas.Handler.{Std, Server, Handler, handle_service_error, publish}

-- The end of a handler that reads: not found is answered for the kind that was asked for.
unfoldable pub answer_value {ℓ} : {A : Type ℓ} → (A → String) → String → Result A → Writer → Writer
answer_value format missing (ok a) w = write (format a) (write_header 200 w)
answer_value format missing (err metric_not_found) w = http_error missing 404 w
answer_value format missing (err e) w = handle_service_error e w

module _ (std : Std) {S : Type 0} (repo : Storage S) where
  -- The end of `UpdateMetric`, after the call of the service.
  unfoldable pub answer_ok : {A : Type 0} → String → Result A × S → Handler S
  answer_ok name (err e, store) r w s = (handle_service_error e w, record s { storage = store })
  answer_ok name (ok a, store) r w s = (
    write "OK" (write_header 200 (set_header "Content-Type" "text/plain; charset=utf-8" w)),
    publish std (name ∷ []) r (record s { storage = store }),
  )

  unfoldable pub take_gauge : String → Option Float64 → Handler S
  unfolding answer_ok
  take_gauge name none r w s = (http_error "bad request: gauge must be float64" 400 w, s)
  take_gauge name (some value) r w s =
      answer_ok name (Service.update_gauge repo name value s.storage) r w s

  unfoldable pub take_counter : String → Option Int64 → Handler S
  unfolding answer_ok
  take_counter name none r w s = (http_error "bad request: counter must be int64" 400 w, s)
  take_counter name (some delta) r w s =
      answer_ok name (Service.update_counter repo name delta s.storage) r w s

  -- `POST /update/{type}/{name}/{value}`
  unfoldable pub update_metric : Handler S
  unfolding take_gauge take_counter
  update_metric r w s =
      let kind = url_param "type" r in
      let name = url_param "name" r in
      let value = url_param "value" r in
      if name == ""
      then (http_error "bad request: metric name is required" 400 w, s)
      else if kind == "gauge"
      then take_gauge name (std.parse_float value) r w s
      else if kind == "counter"
      then take_counter name (std.parse_int value) r w s
      else (http_error "invalid metric type" 400 w, s)

  unfoldable pub answer_gauge : Result Float64 × S → Writer → Server S → Writer × Server S
  unfolding answer_value
  answer_gauge (res, store) w s =
      (answer_value std.format_float "gauge not found" res w, record s { storage = store })

  unfoldable pub answer_counter : Result Int64 × S → Writer → Server S → Writer × Server S
  unfolding answer_value
  answer_counter (res, store) w s =
      (answer_value std.format_int "counter not found" res w, record s { storage = store })

  -- `GET /value/{type}/{name}`
  unfoldable pub get_metric_value : Handler S
  unfolding answer_gauge answer_counter
  get_metric_value r w0 s =
      let w = set_header "Content-Type" "text/plain; charset=utf-8" w0 in
      let kind = url_param "type" r in
      let name = url_param "name" r in
      if kind == "" || name == ""
      then (http_error "path format is invalid" 400 w, s)
      else if kind == "gauge"
      then answer_gauge (Service.get_gauge repo name s.storage) w s
      else if kind == "counter"
      then answer_counter (Service.get_counter repo name s.storage) w s
      else (http_error "invalid metric type" 400 w, s)
