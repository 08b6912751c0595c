-- ===== src/Middleware/Compression.antt =====
-- internal/middleware/gzip.go: bodies that are compressed. A handler is given by the calls that it
-- makes on the response. compress/gzip and strings are parameters; a buffer of internal/pool is empty
-- when it is handed out.
pub mod Arrives
pub mod Calls
pub mod Answers
mod Signature
pub mod Sample
mod Tests
use go_metrics_stas.Prelude.{
  ℕ, String, Option, none, some, Bool, true, false, not, ◌&&◌, ◌||◌, List, [], ◌∷◌, ◌++◌, ◌==◌, leb,
  eqb, if◌then◌else◌, starts_with, or_else,
}
use go_metrics_stas.Dict.{Dict, get, put, remove}
use go_metrics_stas.Http.{Bytes, Request, Writer, header, http_error, text_or_empty}
use go_metrics_stas.Handler.{Server, Handler}

-- `gzip.Writer` for one Write and Close, `gzip.NewReader` and what is read from it, and two functions
-- of strings.
pub record Gzip : Type 0 where
  pub compress : Bytes → Bytes
  pub opens : Option Bytes → Bool
  pub expand : Option Bytes → Option Bytes
  pub equal_fold : String → String → Bool
  pub contains : String → String → Bool

abbrev pub is_compressible : String → Bool
is_compressible encoding =
    starts_with encoding "application/json" || starts_with encoding "text/html"

-- A response as its client gets it.
pub record Reply : Type 0 where
  pub headers : Dict String
  pub sent : Option (ℕ × Dict String)
  pub body : Bytes

abbrev pub new_reply : Reply
new_reply = record { headers = []; sent = none; body = [] }

abbrev pub set : String → String → Reply → Reply
set name value w = record w { headers = put name value w.headers }

abbrev pub send_header : ℕ → Reply → Reply
send_header code w = record w { sent = or_else w.sent (some (code, w.headers)) }

abbrev pub send_bytes : Bytes → Reply → Reply
send_bytes b w = record (send_header 200 w) { body = w.body ++ b }

-- What a handler does with a response.
pub data Call : Type 0 where
  sets : String → String → Call
  writes_header : ℕ → Call
  writes : Bytes → Call

unfoldable pub serve : List Call → Reply → Reply
serve [] w = w
serve (sets name value ∷ calls) w = serve calls (set name value w)
serve (writes_header code ∷ calls) w = serve calls (send_header code w)
serve (writes b ∷ calls) w = serve calls (send_bytes b w)

-- `contentWriter`. Its headers are those of the response that it wraps.
pub record ContentWriter : Type 0 where
  pub response : Reply
  pub buf : Bytes
  pub status : ℕ
  pub header_sent : Bool

abbrev pub content_writer : Reply → ContentWriter
content_writer w = record { response = w; buf = []; status = 0; header_sent = false }

abbrev pub write_status : ℕ → ContentWriter → ContentWriter
write_status code cw =
    if cw.header_sent then cw else record cw { status = code; header_sent = true }

unfoldable pub serve_content : List Call → ContentWriter → ContentWriter
serve_content [] cw = cw
serve_content (sets name value ∷ calls) cw =
    serve_content calls (record cw { response = set name value cw.response })
serve_content (writes_header code ∷ calls) cw = serve_content calls (write_status code cw)
serve_content (writes b ∷ calls) cw = serve_content calls (record cw { buf = cw.buf ++ b })

abbrev pub status_or_default : ContentWriter → ℕ
status_or_default cw = if eqb cw.status 0 then 200 else cw.status

-- `gzipResponseWriter`: the response, and whether its header was written.
pub record GzipWriter : Type 0 where
  pub response : Reply
  pub wrote_header : Bool

abbrev pub gzip_write_header : ℕ → GzipWriter → GzipWriter
gzip_write_header code g = if g.wrote_header then g else record {
  response = send_header code (
      set "Vary" "Accept-Encoding" (
        set "Content-Encoding" "gzip"
          (record g.response { headers = remove "Content-Length" g.response.headers })));
  wrote_header = true;
}

module _ (gz : Gzip) where
  -- `Write`, and the Close of the writer that is given back to its pool.
  abbrev pub gzip_write : Bytes → GzipWriter → GzipWriter
  gzip_write b g =
      let h = gzip_write_header 200 g in
      record h { response = send_bytes (gz.compress b) h.response }

  -- The response of a buffered handler as it is, and compressed.
  abbrev pub answer_plain : ContentWriter → Reply
  answer_plain cw = send_bytes cw.buf (send_header (status_or_default cw) cw.response)

  abbrev pub gzip_unless_sent : ContentWriter → GzipWriter
  gzip_unless_sent cw =
      let g : GzipWriter = record { response = cw.response; wrote_header = false } in
      if not cw.header_sent then gzip_write_header (status_or_default cw) g else g

  abbrev pub answer_gzip : ContentWriter → Reply
  answer_gzip cw = (gzip_write cw.buf (gzip_unless_sent cw)).response

  abbrev pub content_type : ContentWriter → String
  content_type cw = text_or_empty (get "Content-Type" cw.response.headers)

  unfoldable pub compress_content : ContentWriter → Reply
  compress_content cw =
      if not (is_compressible (content_type cw)) || leb 300 (status_or_default cw)
      then answer_plain cw
      else answer_gzip cw

  -- `CompressAccepted`, for a request with this Accept-Encoding.
  unfoldable pub compress_accepted : String → List Call → Reply → Reply
  unfolding compress_content serve serve_content
  compress_accepted accepted calls w =
      if not (gz.contains accepted "gzip")
      then serve calls w
      else compress_content (serve_content calls (content_writer w))

  abbrev pub sign_content : (Bytes → String → String) → String → ContentWriter → ContentWriter
  sign_content hmac key cw =
      if not (hmac cw.buf key == "")
      then record cw { response = set "HashSHA256" (hmac cw.buf key) cw.response }
      else cw

  unfoldable pub sign_and_compress : String → ContentWriter → Reply
  sign_and_compress accepted cw =
      if not (is_compressible (content_type cw))
        || leb 300 (status_or_default cw)
        || not (gz.contains accepted "gzip")
      then answer_plain cw
      else answer_gzip cw

  -- `CompressAndSign`.
  unfoldable pub compress_and_sign :
      (Bytes → String → String) → String → String → List Call → Reply → Reply
  unfolding compress_accepted sign_and_compress serve_content
  compress_and_sign hmac key accepted calls w =
      if key == ""
      then compress_accepted accepted calls w
      else sign_and_compress accepted
          (sign_content hmac key (serve_content calls (content_writer w)))

  -- `Decompress`.
  unfoldable pub decompress : {S : Type 0} → Handler S → Handler S
  decompress next r w s =
      if gz.equal_fold (header "Content-Encoding" r) "gzip"
        && is_compressible (header "Content-Type" r)
      then if gz.opens r.body
        then next (record r { body = gz.expand r.body }) w s
        else (http_error "unable to decompress gzipped body" 400 w, s)
      else next r w s
