-- ===== src/Handler/Json/Laws.antt =====
-- What `UpdateMetricJSON` does with a request, over any lawful storage.
use go_metrics_stas.Prelude.{
  String, ◌≡◌, refl, Option, none, some, false, ◌==◌, Bool-cases, Option-cases, inl, inr,
}
use go_metrics_stas.Prelude.Text.{ne_of_eq_false}
use go_metrics_stas.Http.{Request, new_writer, write_header, status, http_error}
use go_metrics_stas.Model.{Int64, Float64, add_int64, empty_of_gauge, empty_of_counter}
use go_metrics_stas.Repository.{Storage}
use go_metrics_stas.Repository.Lawful.{Lawful}
use go_metrics_stas.Repository.Mem.{or_zero}
use go_metrics_stas.Service
use go_metrics_stas.Service.Laws.{update_counter-eq-total}
use go_metrics_stas.Handler.{
  Std, Server, Update, Reply, gauge_reply, counter_reply, decode_body, encode_to,
}
use go_metrics_stas.Handler.Json.{
  update_metric_json, update_decoded, update_gauge_json, update_counter_json, reply_ok, as_json,
}
use go_metrics_stas.Handler.Takes.{
  wanted_update, gauge_wanted, counter_wanted, Takes, Takes-none, Takes-of_gauge, Takes-of_counter,
}

module _ (std : Std) where
  pub status-encode_to :
      (x : Reply) → status (encode_to std x (write_header 200 (as_json new_writer))) ≡ some 200
  unfolding encode_to
  status-encode_to x = elim (Option-cases (std.encode x)) [
    | inl h ↦ rw (status, h) refl
    | inr (a, h) ↦ rw (status, h) refl
  ]

module _ (std : Std) {S : Type 0} (repo : Storage S) (lw : Lawful repo) where
  open lw use {counter_at}

  module _ (name : String) (r : Request) (s : Server S) (j : String)
      (named : (name == "") ≡ false) where
    Takes-update_gauge_json :
        (o : Option Float64)
        → Takes std repo lw
            (gauge_wanted name o)
            r
            s
            (update_gauge_json std repo name o r (as_json new_writer) s)
            j
    unfolding update_gauge_json reply_ok http_error Service.update_gauge
    Takes-update_gauge_json none =
        Takes-none std repo lw (http_error "value is required for gauge" 400 (as_json new_writer)) r
          s j refl
    Takes-update_gauge_json (some v) =
        let w = encode_to std (gauge_reply name v) (write_header 200 (as_json new_writer)) in
        rw (named)
          (Takes-of_gauge std repo lw name w r s j v (status-encode_to std (gauge_reply name v)))

    Takes-update_counter_json :
        (o : Option Int64)
        → Takes std repo lw
            (counter_wanted name o)
            r
            s
            (update_counter_json std repo name o r (as_json new_writer) s)
            j
    unfolding update_counter_json reply_ok http_error
    Takes-update_counter_json none =
        Takes-none std repo lw (http_error "delta is required for counter" 400 (as_json new_writer))
          r s j refl
    Takes-update_counter_json (some d) =
        let x = counter_reply name (add_int64 (or_zero (counter_at s.storage name)) d) in
        let w = encode_to std x (write_header 200 (as_json new_writer)) in
        rw (update_counter-eq-total repo lw name d s.storage (ne_of_eq_false named))
          (Takes-of_counter std repo lw name w r s j d (status-encode_to std x))

  update_decoded-Takes :
      (o : Option Update) (r : Request) (s : Server S) (j : String)
      → Takes std repo lw
          (wanted_update o)
          r
          s
          (update_decoded std repo o r (as_json new_writer) s)
          j
  unfolding update_decoded http_error
  update_decoded-Takes none r s j =
      Takes-none std repo lw (http_error "invalid JSON body" 400 (as_json new_writer)) r s j refl
  update_decoded-Takes (some m) r s j = elim (Bool-cases (m.id == "")) [
    | inl a ↦ rw a (
        Takes-none std repo lw (http_error "id and type are required" 400 (as_json new_writer)) r s
          j refl)
    | inr a ↦ elim (Bool-cases (m.mtype == "gauge")) [
      | inl b ↦ rw (a, b, empty_of_gauge m.mtype b) (Takes-update_gauge_json m.id r s j a m.value)
      | inr b ↦ elim (Bool-cases (m.mtype == "counter")) [
        | inl c ↦
            rw (a, b, c, empty_of_counter m.mtype c)
              (Takes-update_counter_json m.id r s j a m.delta)
        | inr c ↦ elim (Bool-cases (m.mtype == "")) [
          | inl e ↦
              rw (a, b, c, e)
                (Takes-none std repo lw
                  (http_error "id and type are required" 400 (as_json new_writer)) r s j refl)
          | inr e ↦
              rw (a, b, c, e)
                (Takes-none std repo lw (http_error "invalid metric type" 400 (as_json new_writer))
                  r s j refl)
        ]
      ]
    ]
  ]

  -- An update of one metric in the body, `POST /update`: as for an update in the path, where the body
  -- decodes to a metric with an identifier, a known type and the number of that type. The answer is
  -- 200 even if the reply cannot be encoded.
  pub update_metric_json-Takes :
      (r : Request) (s : Server S) (j : String)
      → Takes std repo lw
          (wanted_update (decode_body std.decode_update r.body))
          r
          s
          (update_metric_json std repo r new_writer s)
          j
  unfolding update_metric_json
  update_metric_json-Takes r s j = update_decoded-Takes (decode_body std.decode_update r.body) r s j
