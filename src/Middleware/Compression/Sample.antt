-- ===== src/Middleware/Compression/Sample.antt =====
-- A compression that puts a byte in front, a subnet of one address, and a client that signs.
use go_metrics_stas.Prelude.{String, Option, none, some, true, [], ◌∷◌, ◌==◌}
use go_metrics_stas.Http.{Bytes}
use go_metrics_stas.Crypto.Sample.{plain}
use go_metrics_stas.Agent.Client.{Tools, MetricsClient}
use go_metrics_stas.Middleware.{Net}
use go_metrics_stas.Middleware.Compression.{Gzip}

abbrev pub net : Net
net = record {
  Subnet = String;
  Ip = String;
  parse_cidr = λ c. some c;
  parse_ip = λ t. some t;
  contains = λ n ip. n == ip;
  hmac_sha256_hex = λ b key. "mac";
  to_lower = λ t. t;
  clean = λ p. p;
}

abbrev pub tail : Option Bytes → Option Bytes
tail none = none
tail (some []) = none
tail (some (x ∷ b)) = some b

abbrev pub gz : Gzip
gz = record {
  compress = λ b. 7 ∷ b;
  opens = λ o. true;
  expand = tail;
  equal_fold = λ a b. a == b;
  contains = λ a b. a == b;
}

abbrev pub tools : Tools
tools = record {
  encode_batch = λ ms. some (8 ∷ []);
  encode_metric = λ m. some (8 ∷ []);
  gzip = λ b. some (7 ∷ b);
  hmac_sha256_hex = λ b key. "mac";
}

abbrev pub client : MetricsClient plain
client = record {
  server_url = "http://localhost:8080";
  key = "secret";
  public_key = some 32;
  local_ip = "10.0.0.1";
}
