-- ===== src/Router/Delivery.antt =====
-- internal/agent/client.go through internal/server/server.go to internal/repository: what the posts of a
-- batch do to the storage of a server that gets them.
use go_metrics_stas.Router.Dispatch.{Dispatches, routes-Reaches}
use go_metrics_stas.Prelude.{
  true, ℕ, ◌^◌, ◌≤◌, ◌<◌, String, ◌≡◌, sym, ap, ◌∙◌, Option, some, true, false, Bool, List, ◌∷◌,
  ◌++◌, ◌==◌, or_else, eq_refl,
}
use go_metrics_stas.Http.{Bytes, Request, Writer}
use go_metrics_stas.Model.{Metrics}
use go_metrics_stas.Outcome.{ok}
use go_metrics_stas.Outcome.Results.{ok-inj}
use go_metrics_stas.Crypto.{Ciphers, Draw, encrypt}
use go_metrics_stas.Crypto.Keys.{Loader, load_optional_key}
use go_metrics_stas.Repository.{Storage}
use go_metrics_stas.Repository.Lawful.{Lawful}
use go_metrics_stas.Repository.Batch.{deltas, last_value, counted}
use go_metrics_stas.Service.Batch.{applied}
use go_metrics_stas.Handler.{Std, Server, Handler, decode_body}
use go_metrics_stas.Agent.Client.{Wire, Tools, MetricsClient, post_for, headers_for, send_batch}
use go_metrics_stas.Agent.Client.Tries.{repeat, send_batch_sends}
use go_metrics_stas.Middleware.{Net}
use go_metrics_stas.Middleware.Compression.{Gzip}
use go_metrics_stas.Middleware.Compression.Arrives.{arrived, body_guards-headers_for}
use go_metrics_stas.Router.{
  Chi, Handlers, handlers, RouterConfig, routes, guarded_routes, new_router,
}
use go_metrics_stas.Router.Passes.{HandsOn, Admits, check-Admits, new_router-eq-ok, wrapped-Reaches}
use go_metrics_stas.Router.Served.{
  serve_posts, copies, TakesPost, counter_at-serve_posts, gauge_at-serve_posts_some,
}

-- What an agent and a server agree on: gzip, the HMAC under the agent's key, and a pair of RSA keys.
pub record Agrees (cs : Ciphers) (tools : Tools) (mc : MetricsClient cs) (net : Net) (gz : Gzip)
    (private_key : cs.PrivateKey) : Type 0 where
  pub public_key : cs.PublicKey
  pub configured : mc.public_key ≡ some public_key
  pub pair : cs.IsPair public_key private_key
  pub small : cs.modulus_size public_key < 2 ^ 16
  pub same_mac :
      (json : Bytes) → tools.hmac_sha256_hex json mc.key ≡ net.hmac_sha256_hex json mc.key
  pub mac_long : (json : Bytes) → (net.hmac_sha256_hex json mc.key == "") ≡ false
  pub fold : gz.equal_fold "gzip" "gzip" ≡ true
  pub opens : (json zipped : Bytes) → tools.gzip json ≡ some zipped → gz.opens (some zipped) ≡ true
  pub expands :
      (json zipped : Bytes) → tools.gzip json ≡ some zipped → gz.expand (some zipped) ≡ some json

module _ {S : Type 0} (chi : Chi S) (net : Net) (gz : Gzip) (cs : Ciphers) (h : Handlers S)
    (tools : Tools) (mc : MetricsClient cs) where
  -- The handler that the guards let a post through to.
  guarded_routes-post_for :
      (private_key : cs.PrivateKey) (json zipped body : Bytes) (key_draw : Draw) (seed : Bytes)
      (nonce_draw : Draw) (r : Request) (a : Agrees cs tools mc net gz private_key)
      → Dispatches chi
      → tools.gzip json ≡ some zipped
      → encrypt cs key_draw seed nonce_draw zipped mc.public_key ≡ ok body
      → (r.method == "POST") ≡ true
      → (r.path == "/updates") ≡ true
      → r.headers ≡ headers_for cs tools mc json
      → r.body ≡ some body
      → (r' : Request) × (r'.body ≡ some json)
        × ((w : Writer) (s : Server S)
            → guarded_routes chi net gz cs (some private_key) mc.key h r w s
              ≡ h.update_batch_json r' w s)
  unfolding guarded_routes
  guarded_routes-post_for private_key json zipped body key_draw seed nonce_draw r a on z e post path
        hs b =
      let (r', k, same) = routes-Reaches chi h (record r { body = some json }) on post path in
      let e' : encrypt cs key_draw seed nonce_draw zipped (some a.public_key) ≡ ok body =
        rw (← a.configured) e in
      (
        r',
        k.body,
        λ w s.
            body_guards-headers_for cs tools mc net gz
              (chi.recoverer (chi.redirect_slashes (chi.mux (routes chi h)))) w s key_draw seed
              nonce_draw json zipped body a.public_key private_key r post hs b a.fold
              (a.opens json zipped z) (a.expands json zipped z) (a.same_mac json) (a.mac_long json)
              a.pair a.small e'
            ∙ same w s,
      )

  -- One post of a batch: the router hands its JSON to the handler of batches.
  router-post_for :
      (loader : Loader cs.PrivateKey) (cfg : RouterConfig) (router : Handler S)
      (private_key : cs.PrivateKey) (json zipped body : Bytes) (key_draw : Draw) (seed : Bytes)
      (nonce_draw : Draw) (address : String)
      → HandsOn chi
      → Dispatches chi
      → Agrees cs tools mc net gz private_key
      → new_router chi net gz cs loader cfg h ≡ ok router
      → load_optional_key loader cfg.crypto_key ≡ ok (some private_key)
      → cfg.key ≡ mc.key
      → Admits net cfg (arrived "/updates" address (post_for cs tools mc "/updates" json body))
      → tools.gzip json ≡ some zipped
      → encrypt cs key_draw seed nonce_draw zipped mc.public_key ≡ ok body
      → (r' : Request) × (r'.body ≡ some json)
        × ((w : Writer) (s : Server S)
            → router (arrived "/updates" address (post_for cs tools mc "/updates" json body)) w s
              ≡ h.update_batch_json r' w s)
  unfolding post_for
  router-post_for loader cfg router private_key json zipped body key_draw seed nonce_draw address on
        inner a made loads keys admitted z e =
      let r = arrived "/updates" address (post_for cs tools mc "/updates" json body) in
      let (o, check, k, c, wraps) = new_router-eq-ok chi net gz cs loader cfg h router made in
      let (r1, kept, outer) = wrapped-Reaches chi net gz cs o check cfg.key h r on in
      let (r2, b, guards) =
        guarded_routes-post_for private_key json zipped body key_draw seed nonce_draw r1 a inner z e
          (ap (λ m. m == "POST") kept.method ∙ eq_refl "POST") (sym kept.path ∙ eq_refl "/updates")
          kept.headers kept.body in
      let one : o ≡ some private_key = ok-inj (sym k ∙ loads) in
      (
        r2,
        b,
        λ w s.
            ap (λ f. f r w s) (sym wraps)
            ∙ outer w s
            ∙ check-Admits net cfg r r1 check (guarded_routes chi net gz cs o cfg.key h) w s
                admitted kept c
            ∙ ap (λ x. guarded_routes chi net gz cs x cfg.key h r1 w s) one
            ∙ ap (λ x. guarded_routes chi net gz cs (some private_key) x h r1 w s) keys
            ∙ guards w s,
      )

module _ {S : Type 0} (std : Std) (repo : Storage S) (lw : Lawful repo) where
  open lw use {gauge_at, counter_at}

  module _ (sort : List String → List String) (escape : String → String)
      (db : Option (Request → Bool)) (chi : Chi S) (net : Net) (gz : Gzip) (cs : Ciphers)
      (tools : Tools) (mc : MetricsClient cs) (loader : Loader cs.PrivateKey) (cfg : RouterConfig)
      (router : Handler S) (private_key : cs.PrivateKey) where
    -- An agent's batch that encodes, compresses and encrypts is posted one to four times to a server
    -- with its keys and in reach of its subnet. However the network answers, if the server gets all of
    -- these posts, then each counter has added up the deltas of the batch once for each of them, and
    -- each gauge has the last value of the batch, up to the first faulty item.
    pub send_batch-serve_posts :
        (key_draw : Draw) (seed : Bytes) (nonce_draw : Draw) (m : Metrics) (metrics : List Metrics)
        (json zipped body : Bytes) (address : String) (wire : Wire) (s : Server S) (j : String)
        → HandsOn chi
        → Dispatches chi
        → Agrees cs tools mc net gz private_key
        → new_router chi net gz cs loader cfg (handlers std sort escape repo db) ≡ ok router
        → load_optional_key loader cfg.crypto_key ≡ ok (some private_key)
        → cfg.key ≡ mc.key
        → Admits net cfg (arrived "/updates" address (post_for cs tools mc "/updates" json body))
        → tools.encode_batch (m ∷ metrics) ≡ some json
        → std.decode_batch json ≡ some (m ∷ metrics)
        → tools.gzip json ≡ some zipped
        → encrypt cs key_draw seed nonce_draw zipped mc.public_key ≡ ok body
        → (k : ℕ) × (1 ≤ k)
          × (k ≤ 4)
          × (let posts = repeat k (post_for cs tools mc "/updates" json body) in
              let after = serve_posts router address posts s in
              ((send_batch cs tools mc key_draw seed nonce_draw (m ∷ metrics) wire).1.sent
                ≡ wire.sent ++ posts)
              × (counter_at after.storage j
                  ≡ counted (counter_at s.storage j) (copies k (deltas j (applied (m ∷ metrics)))))
              × (gauge_at after.storage j
                  ≡ or_else (last_value j (applied (m ∷ metrics))) (gauge_at s.storage j)))
    send_batch-serve_posts key_draw seed nonce_draw m metrics json zipped body address wire s j on
          inner a made loads keys admitted encodes decodes z e =
        let p = post_for cs tools mc "/updates" json body in
        let (r, b, same) =
          router-post_for chi net gz cs (handlers std sort escape repo db) tools mc loader cfg
            router private_key json zipped body key_draw seed nonce_draw address on inner a made
            loads keys admitted z e in
        let t : TakesPost std repo lw router address p (m ∷ metrics) =
          (r, ap (decode_body std.decode_batch) b ∙ decodes, same) in
        let (k, low, high, sent) =
          send_batch_sends cs tools mc key_draw seed nonce_draw m metrics wire json zipped body
            encodes z e in
        (
          k,
          low,
          high,
          (
            sent,
            counter_at-serve_posts std repo lw router address p (m ∷ metrics) j t k s,
            gauge_at-serve_posts_some std repo lw router address p (m ∷ metrics) j t k s low,
          ),
        )
