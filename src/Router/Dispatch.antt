-- ===== src/Router/Dispatch.antt =====
-- internal/server/server.go: which route serves a batch.
use go_metrics_stas.Prelude.{
  String, ◌≡◌, refl, sym, ap, ◌∙◌, Option, none, some, Bool, true, List, [], ◌∷◌, ◌==◌, ◌&&◌,
  if◌then◌else◌, eq_iff,
}
use go_metrics_stas.Http.{Request}
use go_metrics_stas.Handler.{Handler}
use go_metrics_stas.Router.{Route, Chi, Handlers, routes}
use go_metrics_stas.Router.Passes.{Reaches, Reaches-trans}

abbrev pub is_method : Option String → String → Bool
is_method none method = true
is_method (some m) method = m == method

-- The handlers of the routes whose pattern is the path itself, for a method.
unfoldable pub matching : {S : Type 0} → List (Route S) → String → String → List (Handler S)
matching [] method path = []
matching (route ∷ rest) method path =
    let later = matching rest method path in
    if is_method route.method method && route.pattern == path then route.handler ∷ later else later

-- What the inner part of the router relies on of chi: `Recoverer` and `RedirectSlashes` hand a request
-- on that has no slash at its end, and the router serves a request by the only route whose pattern is
-- its path.
pub record Dispatches {S : Type 0} (chi : Chi S) : Type 0 where
  pub recoverer : (next : Handler S) (r : Request) → Reaches (chi.recoverer next) next r
  pub redirect_slashes :
      (next : Handler S) (r : Request)
      → (r.path == "/updates") ≡ true
      → Reaches (chi.redirect_slashes next) next r
  pub mux :
      (all : List (Route S)) (r : Request) (h : Handler S)
      → matching all r.method r.path ≡ h ∷ []
      → Reaches (chi.mux all) h r

matching-routes :
    {S : Type 0} (chi : Chi S) (h : Handlers S) (r : Request)
    → (r.method == "POST") ≡ true
    → (r.path == "/updates") ≡ true
    → matching (routes chi h) r.method r.path ≡ h.update_batch_json ∷ []
unfolding matching routes
matching-routes chi h r post path =
    rw ((eq_iff r.method "POST").0 post, (eq_iff r.path "/updates").0 path) refl

pub routes-Reaches :
    {S : Type 0} (chi : Chi S) (h : Handlers S) (r : Request)
    → Dispatches chi
    → (r.method == "POST") ≡ true
    → (r.path == "/updates") ≡ true
    → Reaches (chi.recoverer (chi.redirect_slashes (chi.mux (routes chi h)))) h.update_batch_json r
routes-Reaches chi h r on post path =
    let picks = chi.mux (routes chi h) in
    let redirects = chi.redirect_slashes picks in
    let first = on.recoverer redirects r in
    let path1 = sym first.1.path ∙ path in
    let second = on.redirect_slashes picks first.0 path1 in
    Reaches-trans (chi.recoverer redirects) redirects h.update_batch_json r first (
      Reaches-trans redirects picks h.update_batch_json first.0 second (
        on.mux (routes chi h) second.0 h.update_batch_json (
          matching-routes chi h second.0
            (ap (λ m. m == "POST") (second.1.method ∙ first.1.method) ∙ post)
            (sym second.1.path ∙ path1))))
