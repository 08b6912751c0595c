-- ===== src/Handler/Health.antt =====
-- internal/handler/health.go: `NewPingHandler`. `PingContext` is an argument: whether the database
-- answers within a second of the request.
use go_metrics_stas.Prelude.{
  ◌≡◌, refl, Option, none, some, Bool, [], ◌∷◌, if◌then◌else◌, Bool-cases, inl, inr,
}
use go_metrics_stas.Dict.{put}
use go_metrics_stas.Http.{Request, new_writer, set_header, write_header, write, http_error}
use go_metrics_stas.Handler.{Server, Handler}

unfoldable pub ping : {S : Type 0} → Option (Request → Bool) → Handler S
ping none r w s = (http_error "DB not configured" 500 w, s)
ping (some reachable) r w s =
    if reachable r
    then (
      write "ok" (set_header "Content-Type" "text/plain; charset=utf-8" (write_header 200 w)),
      s,
    )
    else (http_error "db unreachable" 500 w, s)

-- Where the database answers, the response goes out with 200 and without a Content-Type.
ping-sent :
    {S : Type 0} (reachable : Request → Bool) (r : Request) (s : Server S)
    → (ping (some reachable) r new_writer s).0.sent ≡ (
        if reachable r
        then some (200, [])
        else some (
          500,
          ("Content-Type", "text/plain; charset=utf-8")
              ∷ ("X-Content-Type-Options", "nosniff")
              ∷ [],
        ))
unfolding ping http_error put
ping-sent reachable r s = elim (Bool-cases (reachable r)) [ inl h ↦ rw h refl | inr h ↦ rw h refl ]
