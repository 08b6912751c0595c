-- ===== src/Audit/Sinks/Wiring.antt =====
-- The observers of a configuration.
use Prim.Native.String
use Prim.Native.Char.{code}
use mathlib.Core.Option
use text.Mathlib.TextLemmas.{cons-append, head-eq_of_cons-eq}
use go_metrics_stas.Prelude.Text.{eq_false_of_ne}
use go_metrics_stas.Prelude.{
  String, ◌≡◌, refl, sym, ap, ◌∙◌, none, some, false, ◌&&◌, List, [], ◌∷◌, ◌++◌, ◌==◌,
  if◌then◌else◌, Bool-cases, inl, inr, arith,
}
use go_metrics_stas.Dict.{Dict, put}
use go_metrics_stas.Audit.{AuditEvent, subscribe, notify}
use go_metrics_stas.Audit.Sinks.{
  Auditor, file_auditor, http_auditor, get_id, new_publisher_with_config,
}

file_id :
    (path : String) → get_id (file_auditor path) ≡ String.◌∷◌ "f" (String.◌++◌ "ile_auditor_" path)
file_id path = cons-append "f" "ile_auditor_" path

http_id :
    (url : String) → get_id (http_auditor url) ≡ String.◌∷◌ "h" (String.◌++◌ "ttp_auditor_" url)
http_id url = cons-append "h" "ttp_auditor_" url

ids_differ : (path url : String) → (get_id (file_auditor path) == get_id (http_auditor url)) ≡ false
ids_differ path url = eq_false_of_ne (λ e.
    let c = head-eq_of_cons-eq (sym (file_id path) ∙ e ∙ http_id url) in
    let n : code "f" ≡ code "h" = ap code c in omega arith)

-- What a publisher tells of an event.
abbrev pub told : String → String → AuditEvent → List (Auditor × AuditEvent)
told path url event =
    (if path == "" then [] else (file_auditor path, event) ∷ [])
    ++ (if url == "" then [] else (http_auditor url, event) ∷ [])

-- There is a publisher just when a file or an address is configured, and it then tells each of those
-- that are, and no other, of an event, once.
pub new_publisher_with_config_lem :
    (path url : String) (event : AuditEvent)
    → Option.map (λ (o : Dict Auditor). notify o event) (new_publisher_with_config path url)
      ≡ (if path == "" && url == "" then none else some (told path url event))
unfolding new_publisher_with_config subscribe notify put
new_publisher_with_config_lem path url event = elim (Bool-cases (path == "")) [
  | inl p ↦ elim (Bool-cases (url == "")) [ inl u ↦ rw (p, u) refl | inr u ↦ rw (p, u) refl ]
  | inr p ↦ elim (Bool-cases (url == "")) [
    | inl u ↦ rw (p, u) refl
    | inr u ↦ rw (p, u, ids_differ path url) refl
  ]
]
