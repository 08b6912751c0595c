-- ===== src/Agent/Client/Tests.antt =====
-- A batch that is sent over a network that fails, and the theorem at it.
use go_metrics_stas.Prelude.{◌≡◌, refl, none, some, false, [], ◌∷◌, eqb, if◌then◌else◌}
use go_metrics_stas.Dict.{put}
use go_metrics_stas.Outcome.{ok}
use go_metrics_stas.Repository.Mem.{of_counter}
use go_metrics_stas.Crypto.{encrypt}
use go_metrics_stas.Crypto.Sample.{plain, steady}
use go_metrics_stas.Agent.Client.{
  broken, answered, Wire, Tools, MetricsClient, post_for, send_batch, do_request,
}

abbrev tools : Tools
tools = record {
  encode_batch = λ b. some (1 ∷ []);
  encode_metric = λ m. some (1 ∷ []);
  gzip = λ b. some b;
  hmac_sha256_hex = λ b key. key;
}

abbrev client : MetricsClient plain
client = record {
  server_url = "http://server";
  key = "secret";
  public_key = none;
  local_ip = "10.0.0.1";
}

-- The first request gets no answer, the second is the server's fault, the third is taken.
abbrev wire : Wire
wire = record {
  sent = [];
  answer = λ n. if eqb n 0 then broken else if eqb n 1 then answered 503 else answered 200;
  cancelled = λ n. false;
}

arrives : (send_batch plain tools client steady [] steady (of_counter "a" 1 ∷ []) wire).0 ≡ ok tt
unfolding send_batch encrypt post_for put do_request
arrives = refl
