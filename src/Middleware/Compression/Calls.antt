-- ===== src/Middleware/Compression/Calls.antt =====
-- What the calls of a handler make of a response, buffered or not.
use mathlib.Core.List.{append_assoc, append-nil}
use go_metrics_stas.Prelude.{
  ℕ, String, ◌≡◌, refl, sym, ap, ◌∙◌, Option, none, some, false, List, [], ◌∷◌, ◌++◌, ◌==◌, or_else,
  is_some, All,
}
use go_metrics_stas.Dict.{Dict, get, put}
use go_metrics_stas.Dict.Laws.{get-put}
use go_metrics_stas.Http.{Bytes}
use go_metrics_stas.Config.{get_or}
use go_metrics_stas.Middleware.Compression.{
  Reply, Call, sets, writes_header, writes, serve, set, send_header, send_bytes, ContentWriter,
  write_status, serve_content,
}

-- What a handler writes, in order.
abbrev pub written : List Call → Bytes
written [] = []
written (writes b ∷ calls) = b ++ written calls
written (c ∷ calls) = written calls

-- A call that leaves the encoding of the content to the middleware.
abbrev pub Leaves : Call → Type 0
Leaves (sets name value) = (name == "Content-Encoding") ≡ false
Leaves c = Unit

abbrev pub encoding : Dict String → Option String
encoding headers = get "Content-Encoding" headers

pub encoding-nil : encoding [] ≡ none
unfolding get
encoding-nil = refl

pub set-encoding :
    (name value : String) (headers : Dict String)
    → (name == "Content-Encoding") ≡ false
    → encoding (put name value headers) ≡ encoding headers
set-encoding name value headers h = rw (get-put name "Content-Encoding" value headers, h) refl

abbrev pub headers_after : List Call → Dict String → Dict String
headers_after [] headers = headers
headers_after (sets name value ∷ calls) headers = headers_after calls (put name value headers)
headers_after (c ∷ calls) headers = headers_after calls headers

-- The status that a handler has set; the first one counts.
abbrev pub status_after : List Call → Option ℕ → Option ℕ
status_after [] o = o
status_after (writes_header code ∷ calls) o = status_after calls (or_else o (some code))
status_after (c ∷ calls) o = status_after calls o

-- A buffered response of which nothing was sent.
abbrev pub content : Dict String → Bytes → Option ℕ → ContentWriter
content headers b o = record {
  response = record { headers = headers; sent = none; body = [] };
  buf = b;
  status = get_or o 0;
  header_sent = is_some o;
}

write_status-content :
    (code : ℕ) (headers : Dict String) (b : Bytes) (o : Option ℕ)
    → write_status code (content headers b o) ≡ content headers b (or_else o (some code))
write_status-content code headers b none = refl
write_status-content code headers b (some c) = refl

pub serve_content-content :
    (calls : List Call) (headers : Dict String) (b : Bytes) (o : Option ℕ)
    → serve_content calls (content headers b o)
      ≡ content (headers_after calls headers) (b ++ written calls) (status_after calls o)
unfolding serve_content
serve_content-content [] headers b o = ap (λ x. content headers x o) (sym (append-nil b))
serve_content-content (sets name value ∷ calls) headers b o =
    serve_content-content calls (put name value headers) b o
serve_content-content (writes_header code ∷ calls) headers b o =
    ap (serve_content calls) (write_status-content code headers b o)
    ∙ serve_content-content calls headers b (or_else o (some code))
serve_content-content (writes x ∷ calls) headers b o =
    serve_content-content calls headers (b ++ x) o
    ∙ ap (λ y. content (headers_after calls headers) y (status_after calls o))
        (append_assoc b x (written calls))

pub headers_after-encoding :
    (calls : List Call) (headers : Dict String)
    → All Leaves calls
    → encoding (headers_after calls headers) ≡ encoding headers
headers_after-encoding [] headers h = refl
headers_after-encoding (sets name value ∷ calls) headers h =
    headers_after-encoding calls (put name value headers) h.1 ∙ set-encoding name value headers h.0
headers_after-encoding (writes_header code ∷ calls) headers h =
    headers_after-encoding calls headers h.1
headers_after-encoding (writes x ∷ calls) headers h = headers_after-encoding calls headers h.1

-- The response of a handler that is not buffered.
pub serve-body : (calls : List Call) (w : Reply) → (serve calls w).body ≡ w.body ++ written calls
unfolding serve
serve-body [] w = sym (append-nil w.body)
serve-body (sets name value ∷ calls) w = serve-body calls (set name value w)
serve-body (writes_header code ∷ calls) w = serve-body calls (send_header code w)
serve-body (writes b ∷ calls) w =
    serve-body calls (send_bytes b w) ∙ append_assoc w.body b (written calls)

-- Neither the headers that are set nor those that were sent name an encoding.
abbrev pub sent_encoding : Option (ℕ × Dict String) → Option String
sent_encoding none = none
sent_encoding (some (code, headers)) = encoding headers

or_else-sent_encoding :
    (o : Option (ℕ × Dict String)) (code : ℕ) (headers : Dict String)
    → sent_encoding o ≡ none
    → encoding headers ≡ none
    → sent_encoding (or_else o (some (code, headers))) ≡ none
or_else-sent_encoding none code headers a b = b
or_else-sent_encoding (some x) code headers a b = a

pub serve-encoding :
    (calls : List Call) (w : Reply)
    → All Leaves calls
    → encoding w.headers ≡ none
    → sent_encoding w.sent ≡ none
    → sent_encoding (serve calls w).sent ≡ none
unfolding serve
serve-encoding [] w h a b = b
serve-encoding (sets name value ∷ calls) w h a b =
    serve-encoding calls (set name value w) h.1 (set-encoding name value w.headers h.0 ∙ a) b
serve-encoding (writes_header code ∷ calls) w h a b =
    serve-encoding calls (send_header code w) h.1 a
      (or_else-sent_encoding w.sent code w.headers b a)
serve-encoding (writes x ∷ calls) w h a b =
    serve-encoding calls (send_bytes x w) h.1 a (or_else-sent_encoding w.sent 200 w.headers b a)
