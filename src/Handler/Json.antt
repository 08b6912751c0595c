-- ===== src/Handler/Json.antt =====
-- internal/handler/handler.go: `UpdateMetricJSON`, `GetMetricValueJSON` and `UpdateBatchJSON`.
pub mod Laws
pub mod Batch
use go_metrics_stas.Prelude.{
  ℕ, String, Option, none, some, Bool, List, [], ◌∷◌, ◌==◌, ◌||◌, if◌then◌else◌, map,
}
use go_metrics_stas.Http.{Request, Writer, set_header, write_header, write, http_error}
use go_metrics_stas.Model.{Int64, Float64, Metrics}
use go_metrics_stas.Outcome.{Error, metric_not_found, Result, ok, err}
use go_metrics_stas.Repository.{Storage}
use go_metrics_stas.Service
use go_metrics_stas.Handler.{
  Reply, gauge_reply, counter_reply, batch_reply, Update, Query, Std, Server, Handler,
  handle_service_error, decode_body, publish, encode_to,
}

abbrev pub as_json : Writer → Writer
as_json w = set_header "Content-Type" "application/json; charset=utf-8" w

module _ (std : Std) {S : Type 0} (repo : Storage S) where
  -- What follows the call of the service: an error, or the event and the reply. The reply may depend
  -- on what the service returned.
  unfoldable pub reply_ok : {A : Type 0} → String → (A → Reply) → Result A × S → Handler S
  reply_ok name reply (err e, store) r w s =
      (handle_service_error e w, record s { storage = store })
  reply_ok name reply (ok a, store) r w s = (
    encode_to std (reply a) (write_header 200 w),
    publish std (name ∷ []) r (record s { storage = store }),
  )

  unfoldable pub update_gauge_json : String → Option Float64 → Handler S
  unfolding reply_ok
  update_gauge_json id none r w s = (http_error "value is required for gauge" 400 w, s)
  update_gauge_json id (some v) r w s =
      reply_ok id (λ _. gauge_reply id v) (Service.update_gauge repo id v s.storage) r w s

  unfoldable pub update_counter_json : String → Option Int64 → Handler S
  unfolding reply_ok
  update_counter_json id none r w s = (http_error "delta is required for counter" 400 w, s)
  update_counter_json id (some d) r w s =
      reply_ok id (counter_reply id) (Service.update_counter repo id d s.storage) r w s

  unfoldable pub update_decoded : Option Update → Handler S
  unfolding update_gauge_json update_counter_json
  update_decoded none r w s = (http_error "invalid JSON body" 400 w, s)
  update_decoded (some m) r w s =
      if m.id == "" || m.mtype == ""
      then (http_error "id and type are required" 400 w, s)
      else if m.mtype == "gauge"
      then update_gauge_json m.id m.value r w s
      else if m.mtype == "counter"
      then update_counter_json m.id m.delta r w s
      else (http_error "invalid metric type" 400 w, s)

  -- `POST /update`
  unfoldable pub update_metric_json : Handler S
  unfolding update_decoded
  update_metric_json r w s = update_decoded (decode_body std.decode_update r.body) r (as_json w) s

  unfoldable pub reply_value :
      {A : Type 0} → String → (A → Reply) → Result A × S → Writer → Server S → Writer × Server S
  reply_value missing reply (ok a, store) w s =
      (encode_to std (reply a) (write_header 200 w), record s { storage = store })
  reply_value missing reply (err metric_not_found, store) w s =
      (http_error missing 404 w, record s { storage = store })
  reply_value missing reply (err e, store) w s =
      (handle_service_error e w, record s { storage = store })

  unfoldable pub query_decoded : Option Query → Writer → Server S → Writer × Server S
  unfolding reply_value
  query_decoded none w s = (http_error "invalid JSON body" 400 w, s)
  query_decoded (some q) w s =
      if q.id == "" || q.mtype == ""
      then (http_error "id and type are required" 400 w, s)
      else if q.mtype == "gauge"
      then reply_value "gauge not found" (gauge_reply q.id) (Service.get_gauge repo q.id s.storage)
          w s
      else if q.mtype == "counter"
      then reply_value "counter not found" (counter_reply q.id)
          (Service.get_counter repo q.id s.storage) w s
      else (http_error "invalid metric type" 400 w, s)

  -- `POST /value`
  unfoldable pub get_metric_value_json : Handler S
  unfolding query_decoded
  get_metric_value_json r w s = query_decoded (decode_body std.decode_query r.body) (as_json w) s

  unfoldable pub batch_done : List Metrics → Result (Unit {0}) × S → Handler S
  batch_done batch (err e, store) r w s = (handle_service_error e w, record s { storage = store })
  batch_done batch (ok a, store) r w s = (
    encode_to std (batch_reply batch) (write_header 200 w),
    publish std (map (λ (m : Metrics). m.id) batch) r (record s { storage = store }),
  )

  unfoldable pub batch_decoded : Option (List Metrics) → Handler S
  unfolding batch_done
  batch_decoded none r w s = (http_error "invalid JSON body" 400 w, s)
  batch_decoded (some []) r w s = (write "[]" (write_header 200 w), s)
  batch_decoded (some (m ∷ batch)) r w s =
      batch_done (m ∷ batch) (Service.update_batch repo (m ∷ batch) s.storage) r w s

  -- `POST /updates`
  unfoldable pub update_batch_json : Handler S
  unfolding batch_decoded
  update_batch_json r w s = batch_decoded (decode_body std.decode_batch r.body) r (as_json w) s
