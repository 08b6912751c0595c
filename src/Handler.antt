-- ===== src/Handler.antt =====
-- internal/handler/handler.go: the handlers of `MetricsHandler`, over a storage behind the service.
-- A handler takes the request, the response that is being written and the server, and gives the
-- response and the server after it.
pub mod Text
pub mod Json
pub mod Takes
pub mod Page
pub mod Health
mod Tests
use go_metrics_stas.Prelude.{
  ℕ, String, Option, none, some, Bool, true, false, List, [], ◌∷◌, ◌++◌, ◌==◌, ◌||◌, if◌then◌else◌,
  map,
}
use go_metrics_stas.Http.{
  Bytes, Request, Writer, set_header, write_header, write, http_error, url_param,
}
use go_metrics_stas.Audit.{AuditEvent, create_audit_event}
use go_metrics_stas.Model.{Int64, Float64, Metrics}
use go_metrics_stas.Outcome.{
  Error, invalid_metric_type, metric_not_found, invalid_metric_id, missing_value, missing_delta,
  Result, ok, err,
}

-- The bodies that the handlers encode.
pub data Reply : Type 0 where
  -- `{id, type, value}` and `{id, type, delta}`
  gauge_reply : String → Float64 → Reply
  counter_reply : String → Int64 → Reply
  batch_reply : List Metrics → Reply

-- The body of `POST /update` and of `POST /value`.
pub record Update : Type 0 where
  pub id : String
  pub mtype : String
  pub delta : Option Int64
  pub value : Option Float64

pub record Query : Type 0 where
  pub id : String
  pub mtype : String

-- What the handlers use of strconv, net, encoding/json and the clock. An encoding is none where
-- `Encode` fails, which the handlers pass over.
pub record Std : Type 0 where
  pub parse_float : String → Option Float64
  pub format_float : Float64 → String
  pub parse_int : String → Option Int64
  pub format_int : Int64 → String
  pub split_host_port : String → Option String
  pub encode : Reply → Option String
  pub decode_update : Bytes → Option Update
  pub decode_query : Bytes → Option Query
  pub decode_batch : Bytes → Option (List Metrics)
  pub now : Request → ℕ

-- The storage, the events that were handed to the publisher, and whether there is one.
pub record Server (S : Type 0) : Type 0 where
  pub storage : S
  pub publisher : Bool
  pub events : List AuditEvent

abbrev pub Handler : Type 0 → Type 0
Handler S = Request → Writer → Server S → Writer × Server S

-- `handleServiceError`.
unfoldable pub handle_service_error : Error → Writer → Writer
handle_service_error invalid_metric_type w = http_error "invalid metric type" 400 w
handle_service_error metric_not_found w = http_error "metric not found" 404 w
handle_service_error invalid_metric_id w = http_error "id and type are required" 400 w
handle_service_error missing_value w = http_error "value is required for gauge" 400 w
handle_service_error missing_delta w = http_error "delta is required for counter" 400 w
handle_service_error e w = http_error "internal server error" 500 w

-- `strconv` and the decoder on a body that cannot be read: an error.
abbrev pub decode_body {ℓ} : {A : Type ℓ} → (Bytes → Option A) → Option Bytes → Option A
decode_body decode none = none
decode_body decode (some b) = decode b

-- `json.NewEncoder(w).Encode(resp)`, its error ignored.
unfoldable pub encode_to : Std → Reply → Writer → Writer
encode_to std j w = elim (std.encode j) [ none ↦ w | some text ↦ write text w ]

module _ (std : Std) {S : Type 0} where
  -- `if h.publisher != nil { h.publisher.Notify(audit.CreateAuditEvent(r, names)) }`
  unfoldable pub publish : List String → Request → Server S → Server S
  publish names r s =
      if s.publisher
      then record s {
        events = s.events ++ create_audit_event std.split_host_port (std.now r) r names ∷ [];
      }
      else s
