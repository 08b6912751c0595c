-- ===== src/Agent/Client.antt =====
-- internal/agent/client.go: `retryHTTPClient` and `metricsClient`. The network answers each request
-- that is sent by a schedule; gzip, the encoding of JSON and the HMAC are parameters.
pub mod Tries
mod Tests
use go_metrics_stas.Prelude.{
  ℕ, zero, suc, String, Option, none, some, Bool, true, List, [], ◌∷◌, ◌++◌, ◌==◌, leb, eqb,
  if◌then◌else◌, length, not,
}
use go_metrics_stas.Dict.{Dict, put}
use go_metrics_stas.Http.{Bytes}
use go_metrics_stas.Model.{Metrics}
use go_metrics_stas.Outcome.{Result, ok, err, failure}
use go_metrics_stas.Crypto.{Ciphers, Draw, encrypt, need}
use Prim.Native.String

-- A request: what is left to read of its body, and what `GetBody` gives.
pub record Post : Type 0 where
  pub url : String
  pub headers : Dict String
  pub body : Bytes
  pub get_body : Bytes

-- An error of the transport, or a response with a status.
pub data Answer : Type 0 where
  broken : Answer
  answered : ℕ → Answer

-- What was sent so far, the answer to each request, and whether the context is done before a retry.
pub record Wire : Type 0 where
  pub sent : List Post
  pub answer : ℕ → Answer
  pub cancelled : ℕ → Bool

unfoldable pub should_retry_http : Answer → Bool
should_retry_http broken = true
should_retry_http (answered code) = leb 500 code

-- `c.base.Do(req)`, which reads the body to its end.
abbrev pub base_do : Post → Wire → Answer × Post × Wire
base_do p w =
    (w.answer (length w.sent), record p { body = [] }, record w { sent = w.sent ++ p ∷ [] })

-- `resetBody`.
abbrev pub reset_body : Post → Post
reset_body p = record p { body = p.get_body }

-- What follows a try that is not the last.
unfoldable pub after_try : (Post → Wire → Answer × Wire) → Answer × Post × Wire → Answer × Wire
unfolding should_retry_http
after_try again (a, p, w) =
    if should_retry_http a
    then if w.cancelled (length w.sent) then (broken, w) else again (reset_body p) w
    else (a, w)

-- The tries of `Do` when these waits are left.
unfoldable pub tries : List ℕ → Post → Wire → Answer × Wire
unfolding after_try
tries [] p w = let (a, p', w') = base_do p w in (a, w')
tries (t ∷ waits) p w = after_try (tries waits) (base_do p w)

abbrev pub retry_schedule : List ℕ
retry_schedule = 1 ∷ 3 ∷ 5 ∷ []

unfoldable pub do_request : Post → Wire → Answer × Wire
unfolding tries
do_request p w = tries retry_schedule p w

pub record Tools : Type 0 where
  pub encode_batch : List Metrics → Option Bytes
  pub encode_metric : Metrics → Option Bytes
  pub gzip : Bytes → Option Bytes
  pub hmac_sha256_hex : Bytes → String → String

-- `metricsClient`.
pub record MetricsClient (cs : Ciphers) : Type 0 where
  pub server_url : String
  pub key : String
  pub public_key : Option cs.PublicKey
  pub local_ip : String

abbrev pub set_if : Bool → String → String → Dict String → Dict String
set_if set name value headers = if set then put name value headers else headers

-- The status of the answer, as `SendBatch` and as `SendMetric` read it.
unfoldable pub batch_result : Answer → Result (Unit {0})
batch_result broken = err (failure "transport")
batch_result (answered code) =
    if eqb code 404
    then err (failure "batch endpoint was not found")
    else if eqb code 200
    then ok tt
    else err (failure "status")

unfoldable pub metric_result : Answer → Result (Unit {0})
metric_result broken = err (failure "transport")
metric_result (answered code) = if eqb code 200 then ok tt else err (failure "status")

module _ (cs : Ciphers) (tools : Tools) (mc : MetricsClient cs) where
  abbrev pub headers_for : Bytes → Dict String
  headers_for json = set_if (not (mc.key == "")) "HashSHA256" (tools.hmac_sha256_hex json mc.key) (
      set_if (not (mc.local_ip == "")) "X-Real-IP" mc.local_ip
        (put "Content-Encoding" "gzip" (put "Content-Type" "application/json" [])))

  -- The request for some JSON, compressed and encrypted; the signature is that of the JSON.
  unfoldable pub post_for : String → Bytes → Bytes → Post
  post_for path json body = record {
    url = String.◌++◌ mc.server_url path;
    headers = headers_for json;
    body = body;
    get_body = body;
  }

  module _ (key_draw : Draw) (seed : Bytes) (nonce_draw : Draw) where
    unfoldable pub send_encrypted :
        String
        → (Answer → Result (Unit {0}))
        → Bytes
        → Result Bytes
        → Wire
        → Result (Unit {0}) × Wire
    unfolding post_for
    send_encrypted path read json (err e) w = (err e, w)
    send_encrypted path read json (ok body) w =
        let (a, w') = do_request (post_for path json body) w in (read a, w')

    unfoldable pub send_zipped :
        String
        → (Answer → Result (Unit {0}))
        → Bytes
        → Option Bytes
        → Wire
        → Result (Unit {0}) × Wire
    unfolding send_encrypted
    send_zipped path read json none w = (err (failure "could not compress metrics"), w)
    send_zipped path read json (some gz) w =
        send_encrypted path read json (encrypt cs key_draw seed nonce_draw gz mc.public_key) w

    unfoldable pub send_json :
        String → (Answer → Result (Unit {0})) → Option Bytes → Wire → Result (Unit {0}) × Wire
    unfolding send_zipped
    send_json path read none w = (err (failure "encode"), w)
    send_json path read (some json) w = send_zipped path read json (tools.gzip json) w

    unfoldable pub send_metric : Metrics → Wire → Result (Unit {0}) × Wire
    unfolding send_json metric_result
    send_metric m w = send_json "/update" metric_result (tools.encode_metric m) w

    unfoldable pub send_batch : List Metrics → Wire → Result (Unit {0}) × Wire
    unfolding send_json batch_result
    send_batch [] w = (ok tt, w)
    send_batch (m ∷ metrics) w =
        send_json "/updates" batch_result (tools.encode_batch (m ∷ metrics)) w
