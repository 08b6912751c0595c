-- ===== src/Middleware/Tests.antt =====
-- Requests that the guards let through and turn away, and the theorems at them.
use go_metrics_stas.Prelude.{
  ℕ, String, ◌≡◌, ◌≢◌, refl, some, false, not, ◌&&◌, List, [], ◌∷◌, ◌==◌, if◌then◌else◌, arith,
  eq_iff,
}
use go_metrics_stas.Dict.{get, put}
use go_metrics_stas.Http.{Request, new_writer, http_error, write, status}
use go_metrics_stas.Outcome.{ok}
use go_metrics_stas.Handler.{Server, Handler}
use go_metrics_stas.Crypto.Sample.{plain, steady, out, encrypts}
use go_metrics_stas.Middleware.{Net, check_trusted_subnet, verify_hash, decrypt}
use go_metrics_stas.Middleware.Guard.{
  guarded, signed, why_unsigned, trusted, why_untrusted, verify_hash_lem, check_trusted_subnet_lem,
  decrypt_body-encrypt,
}

-- A subnet is one address here, and a MAC is the key.
abbrev net : Net
net = record {
  Subnet = String;
  Ip = String;
  parse_cidr = λ c. some c;
  parse_ip = λ t. some t;
  contains = λ n ip. n == ip;
  hmac_sha256_hex = λ b key. key;
  to_lower = λ t. t;
  clean = λ p. p;
}

abbrev next : Handler (List ℕ)
next r w s = (write "next" w, s)

abbrev server : Server (List ℕ)
server = record { storage = []; publisher = false; events = [] }

abbrev request : Request
request = record {
  method = "POST";
  path = "/updates";
  url_params = [];
  headers =
      ("Content-Type", "application/json")
      ∷ ("HashSHA256", "forged")
      ∷ ("X-Real-IP", "10.0.0.1")
      ∷ [];
  remote_addr = "10.0.0.1";
  body = some out;
}

verify_hash_lem_example : verify_hash net "secret" next request new_writer server ≡ (
    if guarded net "secret" request && not (signed net "secret" request)
    then (http_error (why_unsigned net request) 400 new_writer, server)
    else next request new_writer server)
verify_hash_lem_example = verify_hash_lem net next request new_writer server "secret"

turned_away : status (verify_hash net "secret" next request new_writer server).0 ≡ some 400
unfolding verify_hash get put http_error
turned_away = refl

-- A request for one metric passes with the same header.
not_verified :
    status (verify_hash net "secret" next (record request { path = "/update" }) new_writer server).0
    ≡ some 200
unfolding verify_hash
not_verified = refl

trusts : ◌≢◌ {A = String} "10.0.0.1" ""
trusts = ground (arith, eq_iff "10.0.0.1" "")

checks_subnet :
    (guard : Handler (List ℕ) → Handler (List ℕ)) × (check_trusted_subnet net "10.0.0.1" ≡ ok guard)
    × (guard next request new_writer server ≡ (
        if trusted net "10.0.0.1" request
        then next request new_writer server
        else (http_error (why_untrusted net request) 403 new_writer, server)))
checks_subnet =
    check_trusted_subnet_lem net next request new_writer server "10.0.0.1" "10.0.0.1" trusts refl

decrypts_body :
    decrypt plain (some 32) next request new_writer server
    ≡ next (record request { body = some (7 ∷ 8 ∷ []) }) new_writer server
decrypts_body =
    decrypt_body-encrypt plain next request new_writer server steady [] steady (7 ∷ 8 ∷ []) 32 32
      out refl (omega arith) encrypts refl refl
