-- ===== src/Middleware/Logging.antt =====
-- internal/middleware/logging.go: `ZapRequestLogger`, around a handler that is given by its calls on
-- the response. Of the line that is logged, the status and the size are modelled.
use go_metrics_stas.Prelude.{
  ℕ, ◌+◌, ◌≡◌, String, refl, sym, ap, ◌∙◌, Option, none, some, Bool, true, false, List, [], ◌∷◌,
  length, length-append, or_else,
}
use go_metrics_stas.Dict.{Dict}
use go_metrics_stas.Middleware.Compression.{
  Call, sets, writes_header, writes, Reply, new_reply, set, send_header, send_bytes, serve,
}

pub record ResponseData : Type 0 where
  pub status : ℕ
  pub size : ℕ

-- `loggingResponseWriter`. Its headers are those of the response that it wraps.
pub record LoggingWriter : Type 0 where
  pub rd : ResponseData
  pub response : Reply

abbrev pub log_write_header : ℕ → LoggingWriter → LoggingWriter
log_write_header code lrw = record {
  rd = record lrw.rd { status = code };
  response = send_header code lrw.response;
}

-- The response takes all of the bytes.
abbrev pub log_write : List ℕ → LoggingWriter → LoggingWriter
log_write b lrw = record {
  rd = record lrw.rd { size = lrw.rd.size + length b };
  response = send_bytes b lrw.response;
}

unfoldable pub serve_logged : List Call → LoggingWriter → LoggingWriter
serve_logged [] lrw = lrw
serve_logged (sets name value ∷ calls) lrw =
    serve_logged calls (record lrw { response = set name value lrw.response })
serve_logged (writes_header code ∷ calls) lrw = serve_logged calls (log_write_header code lrw)
serve_logged (writes b ∷ calls) lrw = serve_logged calls (log_write b lrw)

-- What the handler does through the writer, and what is logged.
unfoldable pub zap_request_logger : List Call → Reply → LoggingWriter
unfolding serve_logged
zap_request_logger calls w =
    serve_logged calls (record { rd = record { status = 200; size = 0 }; response = w })

-- Whether a handler calls WriteHeader.
abbrev asks_status : List Call → Bool
asks_status [] = false
asks_status (sets name value ∷ calls) = asks_status calls
asks_status (writes_header code ∷ calls) = true
asks_status (writes b ∷ calls) = asks_status calls

-- A handler that calls WriteHeader at most once, and before it writes.
abbrev pub AsksOnce : List Call → Type 0
AsksOnce [] = Unit
AsksOnce (sets name value ∷ calls) = AsksOnce calls
AsksOnce (writes_header code ∷ calls) = asks_status calls ≡ false
AsksOnce (writes b ∷ calls) = asks_status calls ≡ false

-- The status that the client sees: 200 if none was sent before the handler returned.
abbrev pub status_of : Option (ℕ × Dict String) → ℕ
status_of none = 200
status_of (some (code, headers)) = code

status_of-or_else :
    (o : Option (ℕ × Dict String)) (h : Dict String)
    → status_of (or_else o (some (200, h))) ≡ status_of o
status_of-or_else none h = refl
status_of-or_else (some (code, headers)) h = refl

serve_logged-response :
    (calls : List Call) (lrw : LoggingWriter)
    → (serve_logged calls lrw).response ≡ serve calls lrw.response
unfolding serve_logged serve
serve_logged-response [] lrw = refl
serve_logged-response (sets name value ∷ calls) lrw = serve_logged-response calls _
serve_logged-response (writes_header code ∷ calls) lrw = serve_logged-response calls _
serve_logged-response (writes b ∷ calls) lrw = serve_logged-response calls _

length-serve_logged :
    (calls : List Call) (lrw : LoggingWriter)
    → length lrw.response.body ≡ lrw.rd.size
    → length (serve_logged calls lrw).response.body ≡ (serve_logged calls lrw).rd.size
unfolding serve_logged
length-serve_logged [] lrw h = h
length-serve_logged (sets name value ∷ calls) lrw h = length-serve_logged calls _ h
length-serve_logged (writes_header code ∷ calls) lrw h = length-serve_logged calls _ h
length-serve_logged (writes b ∷ calls) lrw h =
    length-serve_logged calls _ (length-append lrw.response.body b ∙ ap (λ n. n + length b) h)

status-serve_logged :
    (calls : List Call) (lrw : LoggingWriter)
    → asks_status calls ≡ false
    → status_of lrw.response.sent ≡ lrw.rd.status
    → status_of (serve_logged calls lrw).response.sent ≡ (serve_logged calls lrw).rd.status
unfolding serve_logged
status-serve_logged [] lrw a h = h
status-serve_logged (sets name value ∷ calls) lrw a h = status-serve_logged calls _ a h
status-serve_logged (writes_header code ∷ calls) lrw a h = absurd (cc)
status-serve_logged (writes b ∷ calls) lrw a h =
    status-serve_logged calls _ a (status_of-or_else lrw.response.sent lrw.response.headers ∙ h)

status-AsksOnce :
    (calls : List Call) (lrw : LoggingWriter)
    → AsksOnce calls
    → lrw.response.sent ≡ none
    → lrw.rd.status ≡ 200
    → status_of (serve_logged calls lrw).response.sent ≡ (serve_logged calls lrw).rd.status
unfolding serve_logged
status-AsksOnce [] lrw a n h = ap status_of n ∙ sym h
status-AsksOnce (sets name value ∷ calls) lrw a n h = status-AsksOnce calls _ a n h
status-AsksOnce (writes_header code ∷ calls) lrw a n h =
    status-serve_logged calls _ a
      (ap (λ o. status_of (or_else o (some (code, lrw.response.headers)))) n)
status-AsksOnce (writes b ∷ calls) lrw a n h =
    status-serve_logged calls _ a
      (status_of-or_else lrw.response.sent lrw.response.headers ∙ ap status_of n ∙ sym h)

-- The logger leaves the response as it is, and logs the number of the bytes in it; and it logs the
-- status that the client sees, where the handler calls WriteHeader at most once, and before it writes.
pub zap_request_logger_lem :
    (calls : List Call)
    → AsksOnce calls
    → let out = zap_request_logger calls new_reply in
      (out.response ≡ serve calls new_reply)
      × (length out.response.body ≡ out.rd.size)
      × (status_of out.response.sent ≡ out.rd.status)
unfolding zap_request_logger
zap_request_logger_lem calls a =
    let lrw : LoggingWriter = record {
      rd = record { status = 200; size = 0 };
      response = new_reply;
    } in
    (
      serve_logged-response calls lrw,
      length-serve_logged calls lrw refl,
      status-AsksOnce calls lrw a refl refl,
    )
