-- ===== src/Http.antt =====
-- What the program uses of net/http: a request, and a response that is being written.
use go_metrics_stas.Prelude.{ℕ, String, Option, none, some, List, [], ◌∷◌, ◌++◌, or_else}
use go_metrics_stas.Dict.{Dict, get, put}
use Prim.Native.String

abbrev pub Bytes : Type 0
Bytes = List ℕ

pub record Request : Type 0 where
  pub method : String
  pub path : String
  -- `chi.URLParam`
  pub url_params : Dict String
  -- by canonical names, one value each
  pub headers : Dict String
  pub remote_addr : String
  -- what is read from the body; none if the read fails
  pub body : Option Bytes

abbrev pub text_or_empty : Option String → String
text_or_empty none = ""
text_or_empty (some s) = s

-- `r.Header.Get` and `chi.URLParam` give "" for what is not there.
abbrev pub header : String → Request → String
header name r = text_or_empty (get name r.headers)

abbrev pub url_param : String → Request → String
url_param name r = text_or_empty (get name r.url_params)

-- `http.ResponseWriter`. The first `WriteHeader` sends the status with the headers of that moment; a
-- later one, and a header that is set later, has no effect on what is sent.
pub record Writer : Type 0 where
  pub headers : Dict String
  pub sent : Option (ℕ × Dict String)
  pub body : List String

abbrev pub new_writer : Writer
new_writer = record { headers = []; sent = none; body = [] }

abbrev pub set_header : String → String → Writer → Writer
set_header name value w = record w { headers = put name value w.headers }

abbrev pub write_header : ℕ → Writer → Writer
write_header code w = record w { sent = or_else w.sent (some (code, w.headers)) }

-- A `Write` sends 200 if no status was sent.
abbrev pub write : String → Writer → Writer
write text w = record (write_header 200 w) { body = w.body ++ text ∷ [] }

-- `http.Error`.
unfoldable pub http_error : String → ℕ → Writer → Writer
http_error message code w = write (String.◌++◌ message "\n") (
    write_header code (
      set_header "X-Content-Type-Options" "nosniff"
        (set_header "Content-Type" "text/plain; charset=utf-8" w)))

-- The status that the client sees.
abbrev pub status : Writer → Option ℕ
status w = elim w.sent [ none ↦ none | some (code, headers) ↦ some code ]
