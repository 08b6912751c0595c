-- ===== src/Audit/Sinks/Tests.antt =====
-- Updates of an audit file, and the theorems on the auditors at them.
use mathlib.Core.Option
use mathlib.Core.Path.{subst}
use go_metrics_stas.Prelude.{
  ℕ, String, ◌≡◌, refl, Option, none, some, List, [], ◌∷◌, map, ◌==◌, ◌&&◌, if◌then◌else◌, eqb,
  arith, not, sym, ap, Bool-cases, inl, inr, eq_iff,
}
use go_metrics_stas.Dict.{Dict, get}
use go_metrics_stas.Http.{Bytes}
use go_metrics_stas.Audit.{AuditEvent, notify}
use go_metrics_stas.Audit.Sinks.{
  no_open, whole, content, Auditor, new_publisher_with_config, file_update,
}
use go_metrics_stas.Audit.Sinks.Log.{
  lines, run_updates, accepted, Update, NoNewline, lines-run_updates,
}
use go_metrics_stas.Audit.Sinks.Wiring.{told, new_publisher_with_config_lem}

-- An event is its time here, and its code is one byte; a time of 10 has none.
abbrev at : ℕ → AuditEvent
at n = record { timestamp = n; metrics = []; ip_address = "" }

abbrev fields : ℕ → List String → String → Option Bytes
fields t (m ∷ ms) ip = none
fields t [] ip = if ip == "" && not (eqb t 10) then some (t ∷ []) else none

abbrev encode : AuditEvent → Option Bytes
encode e = fields e.timestamp e.metrics e.ip_address

abbrev decode : Bytes → Option AuditEvent
decode [] = none
decode (t ∷ b) = some (at t)

fields_law :
    (t : ℕ) (metrics : List String) (ip : String) (b : Bytes)
    → fields t metrics ip ≡ some b
    → (decode b ≡ some (record { timestamp = t; metrics = metrics; ip_address = ip })) × NoNewline b
fields_law t (m ∷ ms) ip b h = absurd (cc)
fields_law t [] ip b h = elim (Bool-cases (ip == "")) [
  | inr e ↦ absurd (ground arith)
  | inl e ↦ elim (Bool-cases (eqb t 10)) [
    | inl f ↦ absurd (ground arith)
    | inr f ↦
        let q : t ∷ [] ≡ b = ground arith in
        subst
          (λ (c : Bytes).
            (decode c ≡ some (record { timestamp = t; metrics = []; ip_address = ip }))
            × NoNewline c)
          q
          (
            ap (λ i. some (record { timestamp = t; metrics = []; ip_address = i }))
                (sym ((eq_iff ip "").0 e)),
            (f, tt),
          )
  ]
]

-- The second update cannot open the file.
abbrev updates : List Update
updates = (whole, at 5) ∷ (no_open, at 6) ∷ (whole, at 7) ∷ (whole, at 10) ∷ []

lines-run_updates_example :
    map decode (lines (content "log" (run_updates encode "log" updates [])))
    ≡ map some (accepted encode "log" updates)
lines-run_updates_example =
    lines-run_updates encode "log" decode
      (λ e b h. fields_law e.timestamp e.metrics e.ip_address b h) updates []
      (tt, (tt, (tt, (tt, tt)))) (unfold get in refl)

accepts : accepted encode "log" updates ≡ at 5 ∷ at 7 ∷ []
unfolding accepted file_update
accepts = refl

tells_auditors :
    Option.map
      (λ (o : Dict Auditor). notify o (at 5))
      (new_publisher_with_config "log" "http://audit")
    ≡ some (told "log" "http://audit" (at 5))
tells_auditors = new_publisher_with_config_lem "log" "http://audit" (at 5)
