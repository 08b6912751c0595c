-- ===== src/Middleware/Compression/Tests.antt =====
-- The theorems on compressed bodies at the sample.
use go_metrics_stas.Prelude.{
  ℕ, String, ◌≡◌, refl, some, false, length, List, [], ◌∷◌, arith, if◌then◌else◌,
}
use go_metrics_stas.Dict.{Dict, get, put}
use go_metrics_stas.Http.{Request, new_writer, write}
use go_metrics_stas.Handler.{Server, Handler}
use go_metrics_stas.Crypto.Sample.{plain, steady, out, encrypts}
use go_metrics_stas.Agent.Client.{post_for}
use go_metrics_stas.Middleware.Logging.{zap_request_logger, status_of, zap_request_logger_lem}
use go_metrics_stas.Middleware.Compression.Sample.{net, gz, tools, client}
use go_metrics_stas.Middleware.Compression.{
  Call, sets, writes_header, writes, new_reply, compress_and_sign, serve,
}
use go_metrics_stas.Middleware.Compression.Arrives.{arrived, body_guards, body_guards-post_for}
use go_metrics_stas.Middleware.Compression.Answers.{decoded, decoded-compress_and_sign}
use go_metrics_stas.Middleware.Compression.Signature.{stays_plain, chosen, compress_and_sign-sent}

abbrev next : Handler (List ℕ)
next r w s = (write "next" w, s)

abbrev server : Server (List ℕ)
server = record { storage = []; publisher = false; events = [] }

abbrev post : Request
post = arrived "/updates" "10.0.0.1" (post_for plain tools client "/updates" (8 ∷ []) out)

passes_guards :
    body_guards net gz plain (some 32) "secret" next post new_writer server
    ≡ next (record post { body = some (8 ∷ []) }) new_writer server
passes_guards =
    body_guards-post_for plain tools client net gz next new_writer server steady [] steady (8 ∷ [])
      (7 ∷ 8 ∷ []) out 32 32 "10.0.0.1" refl refl refl refl refl refl (omega arith) encrypts

-- A handler that sets its status, and one that lets it be.
abbrev created : List Call
created = sets "Content-Type" "application/json" ∷ writes_header 201 ∷ writes (1 ∷ 2 ∷ []) ∷ []

decoded-compress_and_sign_example :
    decoded gz (compress_and_sign gz (λ b key. "mac") "secret" "gzip" created new_reply)
    ≡ some (1 ∷ 2 ∷ [])
decoded-compress_and_sign_example =
    decoded-compress_and_sign gz (λ b. refl) (λ b key. "mac") "secret" "gzip" created
      (refl, (tt, (tt, tt)))

compress_and_sign-sent_example :
    (headers : Dict String) × ((compress_and_sign gz
        (λ b key. "mac")
        "secret"
        "gzip"
        created
        new_reply).sent
      ≡ some (if stays_plain gz "gzip" created then chosen created else 200, headers))
    × (get "HashSHA256" headers ≡ some "mac")
compress_and_sign-sent_example =
    compress_and_sign-sent gz (λ b key. "mac") "secret" "gzip" created refl refl

status_lost : stays_plain gz "gzip" created ≡ false
unfolding put get
status_lost = refl

zap_request_logger_lem_example :
    let out = zap_request_logger created new_reply in
    (out.response ≡ serve created new_reply)
    × (length out.response.body ≡ out.rd.size)
    × (status_of out.response.sent ≡ out.rd.status)
zap_request_logger_lem_example = zap_request_logger_lem created refl

-- A second WriteHeader is logged although it is not sent.
logs_last :
    (zap_request_logger (writes_header 200 ∷ writes_header 500 ∷ []) new_reply).rd.status ≡ 500
unfolding zap_request_logger
logs_last = refl
