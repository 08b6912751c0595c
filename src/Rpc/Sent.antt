-- ===== src/Rpc/Sent.antt =====
-- internal/grpcserver/run.go (`NewGRPCServer`) and `SendBatch` of internal/agent/grpc_client.go: a batch
-- on its way from the agent to the service. A call reaches the server once, with its metadata.
use go_metrics_stas.Prelude.{String, Option, some, List, [], ◌∷◌, ◌==◌, if◌then◌else◌}
use go_metrics_stas.Model.{Metrics}
use go_metrics_stas.Outcome.{Result, ok, err, failure}
use go_metrics_stas.Outcome.Results.{◌>>=◌}
use go_metrics_stas.Repository.{Storage}
use go_metrics_stas.Service
use go_metrics_stas.Middleware.{Net}
use go_metrics_stas.Rpc.{
  PbMetric, Status, fine, invalid_argument, internal, permission_denied, to_pb_all, update_metrics,
  trusted_subnet_interceptor,
}

-- A server takes the metadata of a call and the metrics of its request.
abbrev pub RpcServer : Type 0 → Type 0
RpcServer S = Option (List String) → List PbMetric → S → Status × S

module _ (net : Net) {S : Type 0} where
  unfoldable pub new_grpc_server : String → Storage S → Result (RpcServer S)
  new_grpc_server cidr repo = do
    interceptor ← trusted_subnet_interceptor net cidr
    ok (λ metadata items. interceptor metadata (update_metrics repo items))

-- `AppendToOutgoingContext`: the values of "x-real-ip" that the server finds.
abbrev pub real_ips : String → List String
real_ips local_ip = if local_ip == "" then [] else local_ip ∷ []

-- The error that the client's stub makes of a status.
abbrev pub status_result : Status → Result (Unit {0})
status_result fine = ok tt
status_result (invalid_argument text) = err (failure text)
status_result (internal text) = err (failure text)
status_result (permission_denied text) = err (failure text)

abbrev pub answered : {S : Type 0} → Status × S → Result (Unit {0}) × S
answered (status, s) = (status_result status, s)

unfoldable pub send_rpc_batch :
    {S : Type 0} → String → List Metrics → RpcServer S → S → Result (Unit {0}) × S
send_rpc_batch local_ip items server s =
    answered (server (some (real_ips local_ip)) (to_pb_all items) s)
