-- ===== src/Router/Served.antt =====
-- What some copies of one post do to the storage behind a router, if it hands them to the handler of
-- batches.
use mathlib.Core.List.{append-nil}
use mathlib.Core.Path.{subst}
use go_metrics_stas.Prelude.{
  ℕ, zero, suc, ◌+◌, ◌≤◌, String, ◌≡◌, refl, sym, ◌∙◌, Option, none, some, List, [], ◌∷◌, ◌++◌,
  arith, or_else,
}
use go_metrics_stas.Http.{Request, Writer, new_writer}
use go_metrics_stas.Model.{Int64, Metrics}
use go_metrics_stas.Repository.{Storage}
use go_metrics_stas.Repository.Lawful.{Lawful}
use go_metrics_stas.Repository.Batch.{deltas, last_value, counted, sum}
use go_metrics_stas.Service.Batch.{applied}
use go_metrics_stas.Handler.{Std, Server, Handler, decode_body}
use go_metrics_stas.Handler.Json.{update_batch_json}
use go_metrics_stas.Handler.Json.Batch.{TakesBatch, update_batch_json_lem}
use go_metrics_stas.Agent.Client.{Post}
use go_metrics_stas.Agent.Client.Tries.{repeat}
use go_metrics_stas.Middleware.Compression.Arrives.{arrived}

-- The posts that arrive at a server, one after the other.
unfoldable pub serve_posts : {S : Type 0} → Handler S → String → List Post → Server S → Server S
serve_posts router address [] s = s
serve_posts router address (p ∷ posts) s =
    serve_posts router address posts (router (arrived "/updates" address p) new_writer s).1

-- The deltas of some copies of a batch.
abbrev pub copies : ℕ → List Int64 → List Int64
copies zero ds = []
copies (suc k) ds = ds ++ copies k ds

sum-append : (ds es : List Int64) → sum (ds ++ es) ≡ sum ds + sum es
unfolding sum
sum-append [] es = omega arith
sum-append (d ∷ ds) es = omega (arith, sum-append ds es)

-- Counting some deltas and then more is counting all of them.
counted-append :
    (o : Option Int64) (ds es : List Int64) → counted (counted o ds) es ≡ counted o (ds ++ es)
counted-append o [] es = refl
counted-append o (d ∷ ds) [] = rw (append-nil ds) refl
counted-append o (d ∷ ds) (e ∷ es) = ground (arith, sum-append (d ∷ ds) (e ∷ es))

or_else_idem : {A : Type 0} (o p : Option A) → or_else o (or_else o p) ≡ or_else o p
or_else_idem none p = refl
or_else_idem (some a) p = refl

module _ {S : Type 0} (std : Std) (repo : Storage S) (lw : Lawful repo) where
  open lw use {gauge_at, counter_at}

  -- Requests that a router hands to the handler of batches with a body that holds a batch.
  abbrev pub TakesPost : Handler S → String → Post → List Metrics → Type 0
  TakesPost router address p metrics =
      (r : Request) × (decode_body std.decode_batch r.body ≡ some metrics)
      × ((w : Writer) (s : Server S)
          → router (arrived "/updates" address p) w s ≡ update_batch_json std repo r w s)

  module _ (router : Handler S) (address : String) (p : Post) (metrics : List Metrics) (j : String)
      (t : TakesPost router address p metrics) where
    serve_post-TakesBatch :
        (s : Server S)
        → TakesBatch std repo lw
            (some metrics)
            t.0
            s
            (router (arrived "/updates" address p) new_writer s)
            j
    serve_post-TakesBatch s =
        let (r, b, e) = t in
        subst (λ out. TakesBatch std repo lw (some metrics) r s out j) (sym (e new_writer s))
          (subst (λ o. TakesBatch std repo lw o r s (update_batch_json std repo r new_writer s) j) b
            (update_batch_json_lem std repo lw r s j))

    pub counter_at-serve_posts :
        (k : ℕ) (s : Server S)
        → counter_at (serve_posts router address (repeat k p) s).storage j
          ≡ counted (counter_at s.storage j) (copies k (deltas j (applied metrics)))
    unfolding serve_posts
    counter_at-serve_posts zero s = refl
    counter_at-serve_posts (suc k) s =
        let (status, events, c, g) = serve_post-TakesBatch s in
        counter_at-serve_posts k _
        ∙ rw c (
            counted-append (counter_at s.storage j) (deltas j (applied metrics))
              (copies k (deltas j (applied metrics))))

    gauge_at-serve_posts :
        (k : ℕ) (s : Server S)
        → gauge_at (serve_posts router address (repeat (suc k) p) s).storage j
          ≡ or_else (last_value j (applied metrics)) (gauge_at s.storage j)
    unfolding serve_posts
    gauge_at-serve_posts zero s = let (status, events, c, g) = serve_post-TakesBatch s in g
    gauge_at-serve_posts (suc k) s =
        let (status, events, c, g) = serve_post-TakesBatch s in
        gauge_at-serve_posts k _
        ∙ rw g (or_else_idem (last_value j (applied metrics)) (gauge_at s.storage j))

    pub gauge_at-serve_posts_some :
        (k : ℕ) (s : Server S)
        → 1 ≤ k
        → gauge_at (serve_posts router address (repeat k p) s).storage j
          ≡ or_else (last_value j (applied metrics)) (gauge_at s.storage j)
    gauge_at-serve_posts_some zero s h = absurd (omega arith)
    gauge_at-serve_posts_some (suc k) s h = gauge_at-serve_posts k s
