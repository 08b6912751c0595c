-- ===== src/Handler/Text/Laws.antt =====
-- What `UpdateMetric` does with a request, over any lawful storage.
use go_metrics_stas.Prelude.{
  String, ◌≡◌, refl, Option, none, some, false, ◌==◌, Bool-cases, inl, inr,
}
use go_metrics_stas.Prelude.Text.{ne_of_eq_false}
use go_metrics_stas.Http.{
  Request, Writer, new_writer, url_param, write_header, write, set_header, http_error,
}
use go_metrics_stas.Model.{Int64, Float64}
use go_metrics_stas.Repository.{Storage}
use go_metrics_stas.Repository.Lawful.{Lawful}
use go_metrics_stas.Service
use go_metrics_stas.Service.Laws.{update_counter-eq-total}
use go_metrics_stas.Handler.{Std, Server}
use go_metrics_stas.Handler.Text.{update_metric, take_gauge, take_counter, answer_ok}
use go_metrics_stas.Handler.Takes.{
  wanted, gauge_wanted, counter_wanted, Takes, Takes-none, Takes-of_gauge, Takes-of_counter,
}

abbrev said_ok : Writer
said_ok =
    write "OK" (write_header 200 (set_header "Content-Type" "text/plain; charset=utf-8" new_writer))

module _ (std : Std) {S : Type 0} (repo : Storage S) (lw : Lawful repo) where
  module _ (name : String) (r : Request) (s : Server S) (j : String)
      (named : (name == "") ≡ false) where
    Takes-take_gauge :
        (o : Option Float64)
        → Takes std repo lw (gauge_wanted name o) r s (take_gauge std repo name o r new_writer s) j
    unfolding take_gauge answer_ok http_error Service.update_gauge
    Takes-take_gauge none =
        Takes-none std repo lw (http_error "bad request: gauge must be float64" 400 new_writer) r s
          j refl
    Takes-take_gauge (some v) = rw (named) (Takes-of_gauge std repo lw name said_ok r s j v refl)

    Takes-take_counter :
        (o : Option Int64)
        → Takes std repo lw
            (counter_wanted name o)
            r
            s
            (take_counter std repo name o r new_writer s)
            j
    unfolding take_counter answer_ok http_error
    Takes-take_counter none =
        Takes-none std repo lw (http_error "bad request: counter must be int64" 400 new_writer) r s
          j refl
    Takes-take_counter (some d) =
        rw (update_counter-eq-total repo lw name d s.storage (ne_of_eq_false named))
          (Takes-of_counter std repo lw name said_ok r s j d refl)

  -- An update of one metric in the path, `POST /update/{type}/{name}/{value}`, over a lawful storage:
  -- where the path names a metric (a name that is not empty, a known type and a number of that type)
  -- the answer is 200, the publisher, if there is one, is told that name once, and the metric is
  -- applied as a batch of that one would be; else the answer is 400 and nothing changes.
  pub update_metric-Takes :
      (r : Request) (s : Server S) (j : String)
      → Takes std repo lw
          (wanted
            (url_param "type" r)
            (url_param "name" r)
            (std.parse_float (url_param "value" r))
            (std.parse_int (url_param "value" r)))
          r
          s
          (update_metric std repo r new_writer s)
          j
  unfolding update_metric http_error
  update_metric-Takes r s j = elim (Bool-cases (url_param "name" r == "")) [
    | inl a ↦ rw a (
        Takes-none std repo lw (http_error "bad request: metric name is required" 400 new_writer) r
          s j refl)
    | inr a ↦ elim (Bool-cases (url_param "type" r == "gauge")) [
      | inl b ↦
          rw (a, b)
            (Takes-take_gauge (url_param "name" r) r s j a (std.parse_float (url_param "value" r)))
      | inr b ↦ elim (Bool-cases (url_param "type" r == "counter")) [
        | inl c ↦
            rw (a, b, c)
              (Takes-take_counter (url_param "name" r) r s j a
                (std.parse_int (url_param "value" r)))
        | inr c ↦
            rw (a, b, c)
              (Takes-none std repo lw (http_error "invalid metric type" 400 new_writer) r s j refl)
      ]
    ]
  ]
