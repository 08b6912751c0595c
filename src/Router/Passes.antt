-- ===== src/Router/Passes.antt =====
-- internal/server/server.go: which requests get through the router to a handler.
use go_metrics_stas.Prelude.{
  String, ◌≡◌, ◌≢◌, refl, sym, ap, ◌∙◌, Option, some, true, false, ◌⊎◌, inl, inr, ◌==◌,
}
use go_metrics_stas.Http.{Request, Writer, http_error}
use go_metrics_stas.Outcome.{ok}
use go_metrics_stas.Outcome.Results.{bind-eq-ok, ok-inj}
use go_metrics_stas.Crypto.{Ciphers}
use go_metrics_stas.Crypto.Keys.{Loader, load_optional_key}
use go_metrics_stas.Handler.{Server, Handler}
use go_metrics_stas.Middleware.{Net, check_trusted_subnet}
use go_metrics_stas.Middleware.Guard.{trusted, why_untrusted, check_trusted_subnet_lem}
use go_metrics_stas.Middleware.Compression.{Gzip}
use go_metrics_stas.Router.{Chi, Handlers, RouterConfig, guarded_routes, wrapped, new_router}

-- What a middleware that hands a request on leaves of it; a path is left that has no slash at its
-- end, as that of a batch.
pub record Kept (r r' : Request) : Type 0 where
  pub method : r'.method ≡ r.method
  pub headers : r'.headers ≡ r.headers
  pub body : r'.body ≡ r.body
  pub path : (r.path == "/updates") ≡ (r'.path == "/updates")

-- A handler does with a request what another does with what is left of it.
abbrev pub Reaches : {S : Type 0} → Handler S → Handler S → Request → Type 0
Reaches {S} from to r =
    (r' : Request) × Kept r r' × ((w : Writer) (s : Server S) → from r w s ≡ to r' w s)

-- The middleware of chi outside of the guards hands a request on. `RequestID` changes its context,
-- `RealIP` its address, `StripSlashes` the path that chi routes by; `path` is that of the URL, which
-- stays.
pub record HandsOn {S : Type 0} (chi : Chi S) : Type 0 where
  pub request_id : (next : Handler S) (r : Request) → Reaches (chi.request_id next) next r
  pub real_ip : (next : Handler S) (r : Request) → Reaches (chi.real_ip next) next r
  pub strip_slashes : (next : Handler S) (r : Request) → Reaches (chi.strip_slashes next) next r

pub Reaches-trans :
    {S : Type 0} (f g h : Handler S) (r : Request) (first : Reaches f g r)
    → Reaches g h first.0
    → Reaches f h r
Reaches-trans f g h r (a, k, e) (b, k', e') = (
  b,
  record {
    method = k'.method ∙ k.method;
    headers = k'.headers ∙ k.headers;
    body = k'.body ∙ k.body;
    path = k.path ∙ k'.path;
  },
  λ w s. e w s ∙ e' w s,
)

module _ (net : Net) where
  -- The check of the subnet lets a request through.
  abbrev pub Admits : RouterConfig → Request → Type 0
  Admits cfg r =
      (cfg.trusted_subnet ≡ "")
      ⊎ ((subnet : net.Subnet) × (cfg.trusted_subnet ≢ "")
          × (net.parse_cidr cfg.trusted_subnet ≡ some subnet)
          × (trusted net subnet r ≡ true))

  pub check-Admits :
      {S : Type 0} (cfg : RouterConfig) (r r' : Request) (check : Handler S → Handler S)
      (next : Handler S) (w : Writer) (s : Server S)
      → Admits cfg r
      → Kept r r'
      → check_trusted_subnet net cfg.trusted_subnet ≡ ok check
      → check next r' w s ≡ next r' w s
  unfolding check_trusted_subnet
  check-Admits cfg r r' check next w s (inl e) kept c =
      let same : check ≡ (λ f. f) = ok-inj (sym c ∙ rw e refl) in ap (λ f. f next r' w s) same
  check-Admits cfg r r' check next w s (inr (subnet, n, p, t)) kept c =
      let (guard, g, turns) =
        check_trusted_subnet_lem net next r' w s cfg.trusted_subnet subnet n p in
      let one : check ≡ guard = ok-inj (sym c ∙ g) in
      ap (λ f. f next r' w s) one ∙ turns ∙ rw (kept.headers, t) refl

module _ {S : Type 0} (chi : Chi S) (net : Net) (gz : Gzip) (cs : Ciphers) where
  -- A router that is made has read the key of its configuration, and its subnet.
  pub new_router-eq-ok :
      (loader : Loader cs.PrivateKey) (cfg : RouterConfig) (h : Handlers S) (router : Handler S)
      → new_router chi net gz cs loader cfg h ≡ ok router
      → (o : Option cs.PrivateKey) × (check : Handler S → Handler S) × (load_optional_key loader
            cfg.crypto_key
          ≡ ok o)
        × (check_trusted_subnet net cfg.trusted_subnet ≡ ok check)
        × (wrapped chi net gz cs o check cfg.key h ≡ router)
  unfolding new_router
  new_router-eq-ok loader cfg h router e =
      let (o, k, e') = bind-eq-ok (load_optional_key loader cfg.crypto_key) _ router e in
      let (check, c, e'') = bind-eq-ok (check_trusted_subnet net cfg.trusted_subnet) _ router e' in
      (o, check, k, c, ok-inj e'')

  -- What the router does with a request is what the check of the subnet does with it.
  pub wrapped-Reaches :
      (o : Option cs.PrivateKey) (check : Handler S → Handler S) (key : String) (h : Handlers S)
      (r : Request)
      → HandsOn chi
      → Reaches
          (wrapped chi net gz cs o check key h)
          (check (guarded_routes chi net gz cs o key h))
          r
  unfolding wrapped
  wrapped-Reaches o check key h r on =
      let checked = check (guarded_routes chi net gz cs o key h) in
      let stripped = chi.strip_slashes checked in
      let addressed = chi.real_ip stripped in
      let first = on.request_id addressed r in
      let second = on.real_ip stripped first.0 in
      Reaches-trans (chi.request_id addressed) addressed checked r first (
        Reaches-trans addressed stripped checked first.0 second (on.strip_slashes checked second.0))

  -- A router that is made with a trusted subnet that parses answers every request, at any route,
  -- whose header X-Real-IP does not hold an address of the subnet with 403, and the server stays as
  -- it is.
  pub new_router-untrusted :
      (loader : Loader cs.PrivateKey) (cfg : RouterConfig) (h : Handlers S) (router : Handler S)
      (subnet : net.Subnet) (r : Request) (w : Writer) (s : Server S)
      → HandsOn chi
      → new_router chi net gz cs loader cfg h ≡ ok router
      → cfg.trusted_subnet ≢ ""
      → net.parse_cidr cfg.trusted_subnet ≡ some subnet
      → trusted net subnet r ≡ false
      → router r w s ≡ (http_error (why_untrusted net r) 403 w, s)
  new_router-untrusted loader cfg h router subnet r w s on e n p t =
      let (o, check, k, c, made) = new_router-eq-ok loader cfg h router e in
      let (r', kept, same) = wrapped-Reaches o check cfg.key h r on in
      let (guard, g, turns) =
        check_trusted_subnet_lem net (guarded_routes chi net gz cs o cfg.key h) r' w s
          cfg.trusted_subnet subnet n p in
      let one : check ≡ guard = cc in
      ap (λ f. f r w s) (sym made)
      ∙ same w s
      ∙ ap (λ f. f (guarded_routes chi net gz cs o cfg.key h) r' w s) one
      ∙ turns
      ∙ rw (kept.headers, t) refl
