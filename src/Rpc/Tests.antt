-- ===== src/Rpc/Tests.antt =====
-- Calls over gRPC, and the theorems at them.
use go_metrics_stas.Prelude.{
  ℕ, String, ◌≡◌, ◌≢◌, refl, Option, none, some, List, [], ◌∷◌, ◌==◌, if◌then◌else◌, map, arith,
  eq_iff,
}
use go_metrics_stas.Dict.{get, put}
use go_metrics_stas.Model.{Metrics}
use go_metrics_stas.Outcome.{ok}
use go_metrics_stas.Repository.Mem
use go_metrics_stas.Repository.Mem.{MemStorage, of_gauge, of_counter}
use go_metrics_stas.Repository.Mem.Lawfulness.{mem_storage}
use go_metrics_stas.Service
use go_metrics_stas.Middleware.{Net}
use go_metrics_stas.Rpc.{
  Status, fine, permission_denied, ended, to_pb_all, update_metrics, trusted_subnet_interceptor,
  intercept,
}
use go_metrics_stas.Rpc.Sent.{RpcServer}
use go_metrics_stas.Rpc.Carried.{carried, update_metrics-to_pb_all}
use go_metrics_stas.Rpc.Admitted.{admitted, refusal, trusted_subnet_interceptor_lem}

-- The second item has no delta: the service would refuse it, gRPC carries it as 0.
abbrev items : List Metrics
items = of_counter "a" 2 ∷ record (of_counter "b" 1) { delta = none } ∷ []

abbrev before : MemStorage
before = record { gauges = []; counters = ("a", 40) ∷ [] }

carries_batch :
    update_metrics mem_storage (to_pb_all items) before
    ≡ ended (Service.update_batch mem_storage (map carried items) before)
carries_batch = update_metrics-to_pb_all mem_storage items before

stored :
    update_metrics mem_storage (to_pb_all items) before
    ≡ (fine, record { gauges = []; counters = ("a", 42) ∷ ("b", 0) ∷ [] })
unfolding update_metrics to_pb_all Service.update_batch Service.update_item Mem.update_counter get
    put
stored = refl

abbrev net : Net
net = record {
  Subnet = String;
  Ip = String;
  parse_cidr = λ c. some c;
  parse_ip = λ t. some t;
  contains = λ n ip. n == ip;
  hmac_sha256_hex = λ b key. key;
  to_lower = λ t. t;
  clean = λ p. p;
}

abbrev count : ℕ → Status × ℕ
count n = (fine, 1)

is_there : ◌≢◌ {A = String} "10.0.0.1" ""
is_there = ground (arith, eq_iff "10.0.0.1" "")

trusted_subnet_interceptor_lem_example :
    (guard : Option (List String) → (ℕ → Status × ℕ) → ℕ → Status × ℕ) × (trusted_subnet_interceptor
        net "10.0.0.1"
      ≡ ok guard)
    × (guard (some ("10.0.0.2" ∷ [])) count 0 ≡ (
        if admitted net "10.0.0.1" (some ("10.0.0.2" ∷ []))
        then count 0
        else (permission_denied (refusal net (some ("10.0.0.2" ∷ []))), 0)))
trusted_subnet_interceptor_lem_example =
    trusted_subnet_interceptor_lem net "10.0.0.1" count 0 "10.0.0.1" (some ("10.0.0.2" ∷ []))
      is_there refl

abbrev server : RpcServer MemStorage
server metadata requests = intercept net "10.0.0.1" metadata (update_metrics mem_storage requests)
