-- ===== src/Handler/Page/Laws.antt =====
-- What stands on the page of all metrics.
use mathlib.Core.List.{Perm, append_assoc}
use mathlib.Core.List.Perm
use go_metrics_stas.Prelude.Text.{concat}
use go_metrics_stas.Prelude.{String, ◌≡◌, refl, List, [], ◌∷◌, ◌++◌, map}
use go_metrics_stas.Dict.{Dict, get, keys}
use go_metrics_stas.Http.{Request, Writer, set_header, write}
use go_metrics_stas.Model.{Metrics}
use go_metrics_stas.Outcome.{ok}
use go_metrics_stas.Repository.{Storage}
use go_metrics_stas.Service
use go_metrics_stas.Handler.{Std, Server}
use go_metrics_stas.Handler.Page.{row_of, rows, page_head, table, list_all_metrics_html}

-- A page with these rows.
abbrev pub page_of : List String → String
page_of [] = concat (page_head ++ "<p>No metrics available</p>" ∷ "</body></html>" ∷ [])
page_of (line ∷ lines) = concat (
    page_head
    ++ "<table><thead><tr><th>Name</th><th>Type</th><th>Value</th></tr></thead><tbody>"
      ∷ (line ∷ lines)
    ++ "</tbody></table>" ∷ "</body></html>" ∷ [])

module _ (std : Std) (sort : List String → List String) (escape : String → String) where
  pub page-eq-page_of :
      (all : Dict Metrics) (names : List String)
      → concat (page_head ++ table std sort escape all names ++ "</body></html>" ∷ [])
        ≡ page_of (rows std sort escape all names)
  page-eq-page_of all [] = refl
  page-eq-page_of all (n ∷ names) =
      rw
        (append_assoc (rows std sort escape all names) ("</tbody></table>" ∷ [])
          ("</body></html>" ∷ []))
        refl

  module _ {S : Type 0} (repo : Storage S) where
    -- Where the storage gives its metrics, the response is a page of HTML with one row for each name
    -- that is listed and no other row, with status 200 if no status was sent before. The sort is
    -- taken to give a permutation of its argument.
    pub list_all_metrics_html_lem :
        (r : Request) (w : Writer) (s : Server S) (all : Dict Metrics) (store : S)
        → ((names : List String) → Perm (sort names) names)
        → Service.get_all_metrics repo s.storage ≡ (ok all, store)
        → (lines : List String) × Perm lines
            (map (λ n. row_of std sort escape n (get n all)) (keys all))
          × (list_all_metrics_html std sort escape repo r w s ≡ (
            write (page_of lines) (set_header "Content-Type" "text/html; charset=utf-8" w),
            record s { storage = store },
          ))
    unfolding list_all_metrics_html
    list_all_metrics_html_lem r w s all store law e = (
      rows std sort escape all (sort (keys all)),
      Perm.map (λ n. row_of std sort escape n (get n all)) (law (keys all)),
      rw (e, page-eq-page_of all (sort (keys all))) refl,
    )
