-- ===== src/Middleware/Compression/Arrives.antt =====
-- internal/server/server.go: the guards on a request's body in the order of `NewRouter`, and what the
-- agent's client sends through them.
use go_metrics_stas.Prelude.{
  String, ◌≡◌, refl, ap, ◌∙◌, Option, some, [], true, false, ◌==◌, ◌<◌, ◌^◌, Bool-cases, inl, inr,
  eq_refl,
}
use go_metrics_stas.Dict.{get, put}
use go_metrics_stas.Http.{Bytes, Request, Writer}
use go_metrics_stas.Outcome.{ok}
use go_metrics_stas.Handler.{Server, Handler}
use go_metrics_stas.Crypto.{Ciphers, Draw, encrypt}
use go_metrics_stas.Agent.Client.{Post, Tools, MetricsClient, post_for, headers_for}
use go_metrics_stas.Middleware.{Net, verify_hash, decrypt}
use go_metrics_stas.Middleware.Guard.{guarded, signed, verify_hash_lem, decrypt_body-encrypt}
use go_metrics_stas.Middleware.Compression.{Gzip, decompress}

-- The request that a server gets when a post arrives at a path.
abbrev pub arrived : String → String → Post → Request
arrived path address p = record {
  method = "POST";
  path = path;
  url_params = [];
  headers = p.headers;
  remote_addr = address;
  body = some p.body;
}

module _ (net : Net) (gz : Gzip) (cs : Ciphers) {S : Type 0} where
  unfoldable pub body_guards : Option cs.PrivateKey → String → Handler S → Handler S
  body_guards private_key key next =
      decrypt cs private_key (decompress gz (verify_hash net key next))

module _ (cs : Ciphers) (tools : Tools) (mc : MetricsClient cs) where
  headers_for-get :
      (json : Bytes)
      → (get "Content-Encoding" (headers_for cs tools mc json) ≡ some "gzip")
        × (get "Content-Type" (headers_for cs tools mc json) ≡ some "application/json")
  unfolding get put
  headers_for-get json = elim (Bool-cases (mc.key == "")) [
    | inl a ↦ elim (Bool-cases (mc.local_ip == "")) [
      | inl b ↦ rw (a, b) (refl, refl)
      | inr b ↦ rw (a, b) (refl, refl)
    ]
    | inr a ↦ elim (Bool-cases (mc.local_ip == "")) [
      | inl b ↦ rw (a, b) (refl, refl)
      | inr b ↦ rw (a, b) (refl, refl)
    ]
  ]

  headers_for-signature :
      (json : Bytes)
      → (mc.key == "") ≡ false
      → get "HashSHA256" (headers_for cs tools mc json) ≡ some (tools.hmac_sha256_hex json mc.key)
  unfolding get put
  headers_for-signature json a = elim (Bool-cases (mc.local_ip == "")) [
    | inl b ↦ rw (a, b) refl
    | inr b ↦ rw (a, b) refl
  ]

  module _ (net : Net) (gz : Gzip) {S : Type 0} (next : Handler S) (w : Writer) (s : Server S) where
    -- A signature that both sides compute alike is accepted.
    verify_hash-headers_for :
        (json : Bytes) (r : Request)
        → r.headers ≡ headers_for cs tools mc json
        → r.body ≡ some json
        → tools.hmac_sha256_hex json mc.key ≡ net.hmac_sha256_hex json mc.key
        → (net.hmac_sha256_hex json mc.key == "") ≡ false
        → verify_hash net mc.key next r w s ≡ next r w s
    verify_hash-headers_for json r hs b same long =
        verify_hash_lem net next r w s mc.key ∙ elim (Bool-cases (mc.key == "")) [
          | inl a ↦ rw a refl
          | inr a ↦
              let good : signed net mc.key r ≡ true =
                rw (hs, b, headers_for-signature json a, same, long)
                  (eq_refl (net.to_lower (net.hmac_sha256_hex json mc.key))) in
              elim (Bool-cases (guarded net mc.key r)) [
                | inl g ↦ rw (g, good) refl
                | inr g ↦ rw g refl
              ]
        ]

    module _ (key_draw : Draw) (seed : Bytes) (nonce_draw : Draw) (json zipped body : Bytes)
        (public_key : cs.PublicKey) (private_key : cs.PrivateKey) where
      -- What passes: any request that carries the method, the headers and the body of the post.
      pub body_guards-headers_for :
          (r : Request)
          → (r.method == "POST") ≡ true
          → r.headers ≡ headers_for cs tools mc json
          → r.body ≡ some body
          → gz.equal_fold "gzip" "gzip" ≡ true
          → gz.opens (some zipped) ≡ true
          → gz.expand (some zipped) ≡ some json
          → tools.hmac_sha256_hex json mc.key ≡ net.hmac_sha256_hex json mc.key
          → (net.hmac_sha256_hex json mc.key == "") ≡ false
          → cs.IsPair public_key private_key
          → cs.modulus_size public_key < 2 ^ 16
          → encrypt cs key_draw seed nonce_draw zipped (some public_key) ≡ ok body
          → body_guards net gz cs (some private_key) mc.key next r w s
            ≡ next (record r { body = some json }) w s
      unfolding body_guards decompress
      body_guards-headers_for r post hs b fold opens expand same long pair small e =
          decrypt_body-encrypt cs (decompress gz (verify_hash net mc.key next)) r w s key_draw seed
            nonce_draw zipped public_key private_key body pair small e post b
          ∙ rw
              (
                ap (get "Content-Encoding") hs ∙ (headers_for-get json).0,
                ap (get "Content-Type") hs ∙ (headers_for-get json).1,
                fold,
                opens,
                expand,
              )
              (verify_hash-headers_for json (record r { body = some json }) hs refl same long)

    -- The batch that the agent posts to a server with its key, compressed, and encrypted for the
    -- server's key pair, passes the guards, and the handler gets the JSON that was signed.
    pub body_guards-post_for :
        (key_draw : Draw) (seed : Bytes) (nonce_draw : Draw) (json zipped body : Bytes)
        (public_key : cs.PublicKey) (private_key : cs.PrivateKey) (address : String)
        → gz.equal_fold "gzip" "gzip" ≡ true
        → gz.opens (some zipped) ≡ true
        → gz.expand (some zipped) ≡ some json
        → tools.hmac_sha256_hex json mc.key ≡ net.hmac_sha256_hex json mc.key
        → (net.hmac_sha256_hex json mc.key == "") ≡ false
        → cs.IsPair public_key private_key
        → cs.modulus_size public_key < 2 ^ 16
        → encrypt cs key_draw seed nonce_draw zipped (some public_key) ≡ ok body
        → let r = arrived "/updates" address (post_for cs tools mc "/updates" json body) in
          body_guards net gz cs (some private_key) mc.key next r w s
          ≡ next (record r { body = some json }) w s
    unfolding post_for
    body_guards-post_for key_draw seed nonce_draw json zipped body public_key private_key address
          fold opens expand same long pair small e =
        body_guards-headers_for key_draw seed nonce_draw json zipped body public_key private_key
          (arrived "/updates" address (post_for cs tools mc "/updates" json body)) (eq_refl "POST")
          refl refl fold opens expand same long pair small e
