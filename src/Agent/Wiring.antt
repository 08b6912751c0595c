-- ===== src/Agent/Wiring.antt =====
-- internal/agent/agent.go: which sender `Module` makes for an agent; with `newMetricsClient` and
-- `resolveLocalIP` of internal/agent/client.go. What the dial of the address and grpc.NewClient give are
-- arguments.

mod Tests
use go_metrics_stas.Prelude.{
  ℕ, String, ◌≡◌, ◌≢◌, ◌⊎◌, inl, inr, refl, sym, ap, ◌∙◌, Option, none, some, Bool, true, false,
  not, List, [], ◌∷◌, ◌++◌, ◌==◌, if◌then◌else◌, Bool-cases, Option-cases,
}
use go_metrics_stas.Prelude.Text.{eq_false_of_ne}
use go_metrics_stas.Http.{Bytes}
use go_metrics_stas.Model.{Metrics}
use go_metrics_stas.Outcome.{Error, Result, ok, err, failure}
use go_metrics_stas.Outcome.Results.{◌>>=◌, bind-eq-ok, ok-inj}
use go_metrics_stas.Crypto.{Ciphers, Draw, encrypt}
use go_metrics_stas.Crypto.Keys.{Loader, load_key, load_optional_key, load_optional_key-eq-ok}
use go_metrics_stas.Config.Agent.{AgentConfig}
use go_metrics_stas.Agent.Client.{
  Post, Wire, Tools, MetricsClient, post_for, send_json, send_zipped, send_encrypted, send_batch,
}
use go_metrics_stas.Agent.Client.Tries.{repeat, send_batch_sends}

-- The address of a socket that is dialled, if it is; the text "" stands for none.
abbrev pub resolve_local_ip : Option String → String
resolve_local_ip none = ""
resolve_local_ip (some ip) = ip

module _ (cs : Ciphers) where
  -- `BatchSender`: the gRPC client, by its address and the agent's, or the HTTP client.
  pub data Sender : Type 0 where
    over_grpc : String → String → Sender
    over_http : MetricsClient cs → Sender

  unfoldable pub new_metrics_client :
      String → String → Option cs.PublicKey → Option String → MetricsClient cs
  new_metrics_client server_url key public_key dialled = record {
    server_url = server_url;
    key = key;
    public_key = public_key;
    local_ip = resolve_local_ip dialled;
  }

  unfoldable pub new_grpc_client : Bool → String → Option String → Result Sender
  new_grpc_client accepted address dialled =
      if accepted
      then ok (over_grpc address (resolve_local_ip dialled))
      else err (failure "create gRPC client")

  unfoldable pub new_sender :
      Loader cs.PublicKey → AgentConfig → Option String → Bool → Result Sender
  unfolding new_metrics_client new_grpc_client
  new_sender loader cfg dialled accepted =
      if not (cfg.grpc_address == "") then new_grpc_client accepted cfg.grpc_address dialled else do
        public_key ← load_optional_key loader cfg.crypto_key
        ok (over_http (new_metrics_client cfg.server_address cfg.key public_key dialled))

  new_grpc_client-over_http :
      (accepted : Bool) (address : String) (dialled : Option String) (mc : MetricsClient cs)
      → new_grpc_client accepted address dialled ≢ ok (over_http mc)
  unfolding new_grpc_client
  new_grpc_client-over_http true address dialled mc h = cc
  new_grpc_client-over_http false address dialled mc h = cc

  -- An agent over HTTP that has a path for a key has the key of that file.
  new_sender-over_http :
      (loader : Loader cs.PublicKey) (cfg : AgentConfig) (dialled : Option String) (accepted : Bool)
      (mc : MetricsClient cs)
      → (cfg.crypto_key == "") ≡ false
      → new_sender loader cfg dialled accepted ≡ ok (over_http mc)
      → (key : cs.PublicKey) × (load_key loader cfg.crypto_key ≡ ok key)
        × (mc.public_key ≡ some key)
  unfolding new_sender new_metrics_client
  new_sender-over_http loader cfg dialled accepted mc n h =
      elim (Bool-cases (cfg.grpc_address == "")) [
        | inr e ↦
            absurd
              (new_grpc_client-over_http accepted cfg.grpc_address dialled mc (sym (rw e refl) ∙ h))
        | inl e ↦
            let (o, k, made) =
              bind-eq-ok (load_optional_key loader cfg.crypto_key)
                (λ public_key.
                  ok (over_http (new_metrics_client cfg.server_address cfg.key public_key dialled)))
                (over_http mc) (sym (rw e refl) ∙ h) in
            let (key, some_key, loaded) = load_optional_key-eq-ok loader cfg.crypto_key o n k in
            let same : new_metrics_client cfg.server_address cfg.key o dialled ≡ mc = cc in
            (key, loaded, ap (λ c. c.public_key) (sym same) ∙ some_key)
      ]

Result-cases : {A : Type 0} (r : Result A) → ((a : A) × (r ≡ ok a)) ⊎ ((e : Error) × (r ≡ err e))
Result-cases (ok a) = inl (a, refl)
Result-cases (err e) = inr (e, refl)

module _ (cs : Ciphers) (tools : Tools) (mc : MetricsClient cs) (key_draw : Draw) (seed : Bytes)
    (nonce_draw : Draw) where
  -- What a batch may put on the network: nothing, or one post some times, whose body is encrypted.
  abbrev pub SendsEncrypted : cs.PublicKey → List Post → List Post → Type 0
  SendsEncrypted key old new =
      (new ≡ old)
      ⊎ ((gz : Bytes) × (p : Post) × (k : ℕ) × (encrypt cs key_draw seed nonce_draw gz (some key)
            ≡ ok p.body)
          × (new ≡ old ++ repeat k p))

  send_batch-SendsEncrypted :
      (key : cs.PublicKey) (items : List Metrics) (w : Wire)
      → mc.public_key ≡ some key
      → SendsEncrypted key w.sent (send_batch cs tools mc key_draw seed nonce_draw items w).1.sent
  unfolding send_batch send_json send_zipped send_encrypted post_for
  send_batch-SendsEncrypted key [] w h = inl refl
  send_batch-SendsEncrypted key (m ∷ items) w h =
      elim (Option-cases (tools.encode_batch (m ∷ items))) [
        | inl e ↦ inl (rw e refl)
        | inr (json, e) ↦ elim (Option-cases (tools.gzip json)) [
          | inl z ↦ inl (rw (e, z) refl)
          | inr (gz, z) ↦
              elim (Result-cases (encrypt cs key_draw seed nonce_draw gz mc.public_key)) [
                | inr (x, c) ↦ inl (rw (e, z, c) refl)
                | inl (body, c) ↦
                    let (k, low, high, sent) =
                      send_batch_sends cs tools mc key_draw seed nonce_draw m items w json gz body e
                        z c in
                    inr (gz, post_for cs tools mc "/updates" json body, k, rw (← h) c, sent)
              ]
        ]
      ]

-- An agent that is made with a path for a key, and sends over HTTP, sends of a batch nothing or one
-- post, some times over, whose body is what `Encrypt` made with the key in that file.
pub new_sender-SendsEncrypted :
    (cs : Ciphers) (tools : Tools) (loader : Loader cs.PublicKey) (cfg : AgentConfig)
    (dialled : Option String) (accepted : Bool) (mc : MetricsClient cs) (key_draw : Draw)
    (seed : Bytes) (nonce_draw : Draw) (items : List Metrics) (w : Wire)
    → cfg.crypto_key ≢ ""
    → new_sender cs loader cfg dialled accepted ≡ ok (over_http mc)
    → (key : cs.PublicKey) × (load_key loader cfg.crypto_key ≡ ok key)
      × SendsEncrypted cs tools mc key_draw seed nonce_draw key w.sent
          (send_batch cs tools mc key_draw seed nonce_draw items w).1.sent
new_sender-SendsEncrypted cs tools loader cfg dialled accepted mc key_draw seed nonce_draw items w n
      h =
    let (key, loads, has) =
      new_sender-over_http cs loader cfg dialled accepted mc (eq_false_of_ne n) h in
    (key, loads, send_batch-SendsEncrypted cs tools mc key_draw seed nonce_draw key items w has)
