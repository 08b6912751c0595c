-- ===== src/Router.antt =====
-- internal/server/server.go: `NewRouter`. What it uses of github.com/go-chi/chi and net/http/pprof is a
-- parameter; the middleware that logs passes every call on and is in Middleware/Logging.
pub mod Passes
pub mod Dispatch
pub mod Served
pub mod Delivery
mod Tests
use go_metrics_stas.Prelude.{String, Bool, Option, none, some, List, [], ◌∷◌, ◌++◌, map}
use go_metrics_stas.Http.{Request}
use go_metrics_stas.Outcome.{Result, ok}
use go_metrics_stas.Outcome.Results.{◌>>=◌}
use go_metrics_stas.Crypto.{Ciphers}
use go_metrics_stas.Crypto.Keys.{Loader, load_optional_key}
use go_metrics_stas.Repository.{Storage}
use go_metrics_stas.Handler.{Std, Handler}
use go_metrics_stas.Handler.Text.{update_metric, get_metric_value}
use go_metrics_stas.Handler.Json.{update_metric_json, get_metric_value_json, update_batch_json}
use go_metrics_stas.Handler.Page.{list_all_metrics_html}
use go_metrics_stas.Handler.Health.{ping}
use go_metrics_stas.Middleware.{Net, check_trusted_subnet}
use go_metrics_stas.Middleware.Compression.{Gzip}
use go_metrics_stas.Middleware.Compression.Arrives.{body_guards}

-- `r.Get`, `r.Post`, and `r.HandleFunc` and `r.Handle`, which take every method.
pub record Route (S : Type 0) : Type 0 where
  pub method : Option String
  pub pattern : String
  pub handler : Handler S

-- The middleware of chi, how its router picks a route, and the handlers of pprof by their path.
pub record Chi (S : Type 0) : Type 0 where
  pub request_id : Handler S → Handler S
  pub real_ip : Handler S → Handler S
  pub strip_slashes : Handler S → Handler S
  pub recoverer : Handler S → Handler S
  pub redirect_slashes : Handler S → Handler S
  pub mux : List (Route S) → Handler S
  pub pprof : String → Handler S

module _ {S : Type 0} where
  abbrev pub get_route : String → Handler S → Route S
  get_route pattern h = record { method = some "GET"; pattern = pattern; handler = h }

  abbrev pub post_route : String → Handler S → Route S
  post_route pattern h = record { method = some "POST"; pattern = pattern; handler = h }

  abbrev pub profile_route : Chi S → String → Route S
  profile_route chi path = record { method = none; pattern = path; handler = chi.pprof path }

abbrev pub profiles : List String
profiles =
    "/debug/pprof/" ∷ "/debug/pprof/cmdline" ∷ "/debug/pprof/profile" ∷ "/debug/pprof/symbol"
    ∷ "/debug/pprof/trace" ∷ "/debug/pprof/heap" ∷ "/debug/pprof/goroutine" ∷ "/debug/pprof/allocs"
    ∷ "/debug/pprof/block" ∷ "/debug/pprof/mutex" ∷ []

-- The handlers that the router is given: `MetricsHandler` over its storage, and the check of health.
pub record Handlers (S : Type 0) : Type 0 where
  pub update_metric : Handler S
  pub update_metric_json : Handler S
  pub get_metric_value : Handler S
  pub get_metric_value_json : Handler S
  pub list_all_metrics_html : Handler S
  pub update_batch_json : Handler S
  pub ping : Handler S

abbrev pub handlers :
    {S : Type 0}
    → Std
    → (List String → List String)
    → (String → String)
    → Storage S
    → Option (Request → Bool)
    → Handlers S
handlers std sort escape repo db = record {
  update_metric = update_metric std repo;
  update_metric_json = update_metric_json std repo;
  get_metric_value = get_metric_value std repo;
  get_metric_value_json = get_metric_value_json std repo;
  list_all_metrics_html = list_all_metrics_html std sort escape repo;
  update_batch_json = update_batch_json std repo;
  ping = ping db;
}

-- The fields of `ServerConfig` that the router reads.
pub record RouterConfig : Type 0 where
  pub crypto_key : String
  pub trusted_subnet : String
  pub key : String

module _ {S : Type 0} (chi : Chi S) where
  unfoldable pub routes : Handlers S → List (Route S)
  routes h =
      map (profile_route chi) profiles
      ++ get_route "/ping" h.ping
        ∷ post_route "/update/{type}/{name}/{value}" h.update_metric
        ∷ post_route "/update" h.update_metric_json
        ∷ post_route "/update/" h.update_metric_json
        ∷ post_route "/value" h.get_metric_value_json
        ∷ post_route "/value/" h.get_metric_value_json
        ∷ get_route "/value/{type}/{name}" h.get_metric_value
        ∷ get_route "/" h.list_all_metrics_html
        ∷ post_route "/updates" h.update_batch_json
        ∷ post_route "/updates/" h.update_batch_json
        ∷ []

  module _ (net : Net) (gz : Gzip) (cs : Ciphers) where
    -- The guards on a body, around the routes.
    unfoldable pub guarded_routes : Option cs.PrivateKey → String → Handlers S → Handler S
    guarded_routes private_key key h =
        body_guards net gz cs private_key key
          (chi.recoverer (chi.redirect_slashes (chi.mux (routes h))))

    -- The middleware in the order of `r.Use`, the first outermost, around the routes.
    unfoldable pub wrapped :
        Option cs.PrivateKey → (Handler S → Handler S) → String → Handlers S → Handler S
    wrapped private_key subnet_check key h =
        chi.request_id
          (chi.real_ip (chi.strip_slashes (subnet_check (guarded_routes private_key key h))))

    unfoldable pub new_router :
        Loader cs.PrivateKey → RouterConfig → Handlers S → Result (Handler S)
    new_router loader cfg h = do
      private_key ← load_optional_key loader cfg.crypto_key
      subnet_check ← check_trusted_subnet net cfg.trusted_subnet
      ok (wrapped private_key subnet_check cfg.key h)
