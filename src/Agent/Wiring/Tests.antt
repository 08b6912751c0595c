-- ===== src/Agent/Wiring/Tests.antt =====
-- Agents with a key, over HTTP and over gRPC.
use go_metrics_stas.Prelude.{
  ℕ, String, ◌≡◌, ◌≢◌, refl, none, some, true, false, List, [], ◌∷◌, arith, eq_iff,
}
use go_metrics_stas.Model.{Metrics}
use go_metrics_stas.Outcome.{ok}
use go_metrics_stas.Outcome.Results.{◌>>=◌}
use go_metrics_stas.Repository.Mem.{of_counter}
use go_metrics_stas.Crypto.Sample.{plain, steady}
use go_metrics_stas.Crypto.Keys.{Loader, rsa, load_key, load_optional_key}
use go_metrics_stas.Config.Agent.{AgentConfig}
use go_metrics_stas.Middleware.Compression.Sample.{tools, client}
use go_metrics_stas.Agent.Client.{Wire, answered, send_batch}
use go_metrics_stas.Agent.Wiring.{
  over_grpc, over_http, new_sender, new_metrics_client, SendsEncrypted, new_sender-SendsEncrypted,
}

abbrev loader : Loader ℕ
loader = record {
  read_file = λ path. some [];
  pem_block = λ b. some b;
  parse = λ b. some (rsa 32);
  parse_pkcs1 = λ b. none;
}

abbrev cfg : AgentConfig
cfg = record {
  poll_interval = 2;
  report_interval = 10;
  server_address = "http://localhost:8080";
  key = "secret";
  rate_limit = 1;
  crypto_key = "key.pem";
  grpc_address = "";
}

made : new_sender plain loader cfg (some "10.0.0.1") true ≡ ok (over_http client)
unfolding new_sender new_metrics_client load_optional_key load_key ◌>>=◌
made = refl

has_path : ◌≢◌ {A = String} "key.pem" ""
has_path = ground (arith, eq_iff "key.pem" "")

abbrev items : List Metrics
items = of_counter "a" 2 ∷ []

abbrev wire : Wire
wire = record { sent = []; answer = λ n. answered 200; cancelled = λ n. false }

new_sender-SendsEncrypted_example :
    (key : ℕ) × (load_key loader "key.pem" ≡ ok key)
    × SendsEncrypted plain tools client steady [] steady key []
        (send_batch plain tools client steady [] steady items wire).1.sent
new_sender-SendsEncrypted_example =
    new_sender-SendsEncrypted plain tools loader cfg (some "10.0.0.1") true client steady [] steady
      items wire has_path made

-- Over gRPC the key is not read at all.
ignores_key :
    new_sender plain loader (record cfg { grpc_address = "localhost:3200" }) none true
    ≡ ok (over_grpc "localhost:3200" "")
unfolding new_sender
ignores_key = refl
