-- ===== src/Handler/Text/Reads.antt =====
-- What `GetMetricValue` answers, and that it answers what `UpdateMetric` has stored.
use go_metrics_stas.Prelude.{
  ℕ, String, ◌≡◌, ◌≢◌, refl, ◌∙◌, Option, none, some, false, List, [], ◌∷◌, ◌==◌, eqb,
  if◌then◌else◌, arith, eq_refl, Bool-cases, inl, inr,
}
use go_metrics_stas.Prelude.Text.{eq_false_of_ne}
use go_metrics_stas.Http.{Request, Writer, new_writer, url_param, set_header, status, http_error}
use go_metrics_stas.Model.{Int64, Float64, add_int64, empty_of_gauge, empty_of_counter}
use go_metrics_stas.Outcome.{metric_not_found}
use go_metrics_stas.Repository.{Storage}
use go_metrics_stas.Repository.Lawful.{Lawful}
use go_metrics_stas.Repository.Mem.{or_zero, found, of_counter}
use go_metrics_stas.Repository.Batch.{counted, deltas, keep_delta, sum}
use go_metrics_stas.Service
use go_metrics_stas.Service.Laws.{reads_exact}
use go_metrics_stas.Handler.{Std, Server}
use go_metrics_stas.Handler.Takes.{wanted}
use go_metrics_stas.Handler.Text.{
  update_metric, get_metric_value, answer_gauge, answer_counter, answer_value,
}
use go_metrics_stas.Handler.Text.Laws.{update_metric-Takes}

-- The answers to a read: a request that names nothing readable, nothing there, and a text.
pub data Read : Type 0 where
  bad absent : Read
  there : String → Read

abbrev pub read_status : Read → ℕ
read_status bad = 400
read_status absent = 404
read_status (there text) = 200

abbrev pub there_or_absent {ℓ} : {A : Type ℓ} → (A → String) → Option A → Read
there_or_absent format none = absent
there_or_absent format (some a) = there (format a)

abbrev pub read_body : Read → List String
read_body bad = []
read_body absent = []
read_body (there text) = text ∷ []

-- The body of an answer with status 200.
abbrev pub ok_body : Writer → List String
ok_body w = elim (status w) [ none ↦ [] | some code ↦ if eqb code 200 then w.body else [] ]

abbrev Says : Writer → Read → Type 0
Says w x = (status w ≡ some (read_status x)) × (ok_body w ≡ read_body x)

abbrev plain_text : Writer
plain_text = set_header "Content-Type" "text/plain; charset=utf-8" new_writer

counted-of_counter :
    (o : Option Int64) (name : String) (d : Int64)
    → counted o (deltas name (of_counter name d ∷ [])) ≡ some (add_int64 (or_zero o) d)
unfolding deltas keep_delta sum
counted-of_counter o name d = ground (arith, eq_refl name)

wanted_counter :
    (std : Std) (p : Request) (d : Int64)
    → url_param "type" p ≡ "counter"
    → url_param "name" p ≢ ""
    → std.parse_int (url_param "value" p) ≡ some d
    → wanted
        (url_param "type" p)
        (url_param "name" p)
        (std.parse_float (url_param "value" p))
        (std.parse_int (url_param "value" p))
      ≡ some (of_counter (url_param "name" p) d)
wanted_counter std p d kind named parsed = rw (kind, eq_false_of_ne named, parsed) refl

module _ (std : Std) {S : Type 0} (repo : Storage S) (lw : Lawful repo) where
  open lw use {gauge_at, counter_at}

  -- What a read of a kind and a name finds.
  abbrev pub readable : String → String → S → Read
  readable kind name store =
      if name == ""
      then bad
      else if kind == "gauge"
      then there_or_absent std.format_float (gauge_at store name)
      else if kind == "counter"
      then there_or_absent std.format_int (counter_at store name)
      else bad

  module _ (s : Server S) where
    Says-answer_gauge :
        (o : Option Float64)
        → Says
            (answer_gauge std repo (found metric_not_found o, s.storage) plain_text s).0
            (there_or_absent std.format_float o)
    unfolding answer_gauge answer_value http_error
    Says-answer_gauge none = (refl, refl)
    Says-answer_gauge (some v) = (refl, refl)

    Says-answer_counter :
        (o : Option Int64)
        → Says
            (answer_counter std repo (found metric_not_found o, s.storage) plain_text s).0
            (there_or_absent std.format_int o)
    unfolding answer_counter answer_value http_error
    Says-answer_counter none = (refl, refl)
    Says-answer_counter (some v) = (refl, refl)

  get_gauge_named :
      (name : String) (s : S)
      → (name == "") ≡ false
      → Service.get_gauge repo name s ≡ (found metric_not_found (gauge_at s name), s)
  get_gauge_named name s a = (reads_exact repo lw name s).0 ∙ rw a refl

  get_counter_named :
      (name : String) (s : S)
      → (name == "") ≡ false
      → Service.get_counter repo name s ≡ (found metric_not_found (counter_at s name), s)
  get_counter_named name s a = (reads_exact repo lw name s).1 ∙ rw a refl

  -- A read in the path, `GET /value/{type}/{name}`, over a lawful storage: 200 with the number alone
  -- where the storage holds one of that type and name, 404 where it holds none, and 400 at an empty
  -- name or an unknown type; the server stays as it is.
  pub get_metric_value_lem :
      (r : Request) (s : Server S)
      → (status (get_metric_value std repo r new_writer s).0
          ≡ some (read_status (readable (url_param "type" r) (url_param "name" r) s.storage)))
        × (ok_body (get_metric_value std repo r new_writer s).0
            ≡ read_body (readable (url_param "type" r) (url_param "name" r) s.storage))
        × ((get_metric_value std repo r new_writer s).1 ≡ s)
  unfolding get_metric_value answer_gauge answer_counter http_error
  get_metric_value_lem r s = elim (Bool-cases (url_param "name" r == "")) [
    | inl a ↦ elim (Bool-cases (url_param "type" r == "")) [
      | inl e ↦ rw (a, e) (refl, refl, refl)
      | inr e ↦ rw (a, e) (refl, refl, refl)
    ]
    | inr a ↦ elim (Bool-cases (url_param "type" r == "gauge")) [
      | inl b ↦
          let (x, y) = Says-answer_gauge s (gauge_at s.storage (url_param "name" r)) in
          rw
            (
              a,
              b,
              empty_of_gauge (url_param "type" r) b,
              get_gauge_named (url_param "name" r) s.storage a,
            )
            (x, y, refl)
      | inr b ↦ elim (Bool-cases (url_param "type" r == "counter")) [
        | inl c ↦
            let (x, y) = Says-answer_counter s (counter_at s.storage (url_param "name" r)) in
            rw
              (
                a,
                b,
                c,
                empty_of_counter (url_param "type" r) c,
                get_counter_named (url_param "name" r) s.storage a,
              )
              (x, y, refl)
        | inr c ↦ elim (Bool-cases (url_param "type" r == "")) [
          | inl e ↦ rw (a, b, c, e) (refl, refl, refl)
          | inr e ↦ rw (a, b, c, e) (refl, refl, refl)
        ]
      ]
    ]
  ]

  -- A counter that is updated in the path and then read in the path: the update is answered with 200
  -- and the read with the old total (0 if there was none) plus the delta, modulo 2 ^ 64, in digits.
  pub get_metric_value-update_metric :
      (p q : Request) (s : Server S) (d : Int64)
      → url_param "type" p ≡ "counter"
      → url_param "type" q ≡ "counter"
      → url_param "name" q ≡ url_param "name" p
      → url_param "name" p ≢ ""
      → std.parse_int (url_param "value" p) ≡ some d
      → (status (update_metric std repo p new_writer s).0 ≡ some 200)
        × (ok_body
              (get_metric_value std repo q new_writer (update_metric std repo p new_writer s).1).0
            ≡ std.format_int (add_int64 (or_zero (counter_at s.storage (url_param "name" p))) d)
              ∷ [])
  get_metric_value-update_metric p q s d kp kq same named parsed =
      let m = wanted_counter std p d kp named parsed in
      let (u, e, c, g) = update_metric-Takes std repo lw p s (url_param "name" p) in
      let (a, b, x) = get_metric_value_lem q (update_metric std repo p new_writer s).1 in
      let o = counter_at s.storage (url_param "name" p) in
      (
        u ∙ rw m refl,
        b
            ∙ rw (kq, same, eq_false_of_ne named, c, m, counted-of_counter o (url_param "name" p) d)
                refl,
      )
