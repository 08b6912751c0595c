-- ===== src/Handler/Page.antt =====
-- internal/handler/handler.go: `ListAllMetricsHTML`. `sort.Strings` and `html.EscapeString` are
-- arguments.
pub mod Laws
pub mod Shown
use Prim.Native.String
use go_metrics_stas.Prelude.Text.{concat}
use go_metrics_stas.Prelude.{
  ℕ, String, ◌≡◌, refl, sym, ap, ◌∙◌, Option, none, some, Bool, true, false, List, [], ◌∷◌, ◌++◌,
  map, is_empty, or_else, if◌then◌else◌,
}
use go_metrics_stas.Dict.{Dict, get, keys}
use go_metrics_stas.Http.{Request, Writer, set_header, write, http_error}
use go_metrics_stas.Model.{Int64, Float64, Metrics}
use go_metrics_stas.Outcome.{Error, Result, ok, err}
use go_metrics_stas.Repository.{Storage}
use go_metrics_stas.Service
use go_metrics_stas.Handler.{Std, Server, Handler}

-- The text of a missing number is empty; a delta goes before a value.
abbrev pub number_text : Std → Option Float64 → Option Int64 → String
number_text std value (some d) = std.format_int d
number_text std (some v) none = std.format_float v
number_text std none none = ""

abbrev pub page_head : List String
page_head =
    "<!doctype html><html><head><meta charset='utf-8'><title>Metrics</title>"
    ∷ "<style>body{font-family:system-ui,-apple-system,Segoe UI,Roboto,Arial}table{border-collapse:collapse}td,th{border:1px solid #ddd;padding:6px 10px}</style>"
    ∷ "</head><body><h1>Metrics</h1>" ∷ []

module _ (std : Std) (sort : List String → List String) (escape : String → String) where
  -- `m := allMetrics[n]` gives the zero value for a name that is not there.
  abbrev pub row_of : String → Option Metrics → String
  row_of name none = concat (
      "<tr><td>"
      ∷ escape name
      ∷ "</td><td>"
      ∷ escape ""
      ∷ "</td><td>"
      ∷ escape ""
      ∷ "</td></tr>"
      ∷ [])
  row_of name (some m) = concat (
      "<tr><td>"
      ∷ escape name
      ∷ "</td><td>"
      ∷ escape m.mtype
      ∷ "</td><td>"
      ∷ escape (number_text std m.value m.delta)
      ∷ "</td></tr>"
      ∷ [])

  abbrev pub rows : Dict Metrics → List String → List String
  rows all names = map (λ n. row_of n (get n all)) names

  abbrev pub table : Dict Metrics → List String → List String
  table all names =
      if is_empty names
      then "<p>No metrics available</p>" ∷ []
      else ("<table><thead><tr><th>Name</th><th>Type</th><th>Value</th></tr></thead><tbody>"
            ∷ rows all names
          ++ "</tbody></table>" ∷ [])

  abbrev pub page : Dict Metrics → String
  page all = concat (page_head ++ table all (sort (keys all)) ++ "</body></html>" ∷ [])

  module _ {S : Type 0} (repo : Storage S) where
    abbrev pub answer_page : Result (Dict Metrics) → Writer → Writer
    answer_page (err e) w = http_error "failed to retrieve metrics" 500 w
    answer_page (ok all) w = write (page all) w

    -- `GET /`
    unfoldable pub list_all_metrics_html : Handler S
    list_all_metrics_html r w s =
        let (res, store) = Service.get_all_metrics repo s.storage in
        (
          answer_page res (set_header "Content-Type" "text/html; charset=utf-8" w),
          record s { storage = store },
        )
