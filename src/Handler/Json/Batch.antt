-- ===== src/Handler/Json/Batch.antt =====
-- What `UpdateBatchJSON` does with a request, over any lawful storage.
use mathlib.Core.List.{append-nil}
use go_metrics_stas.Prelude.{
  String, ◌≡◌, refl, sym, ap, ◌∙◌, Option, none, some, Bool, true, List, [], ◌∷◌, ◌++◌, map,
  if◌then◌else◌, is_empty, is_some, not, ◌||◌, or_else, arith, Option-cases, inl, inr,
}
use go_metrics_stas.Http.{Request, Writer, new_writer, status, http_error}
use go_metrics_stas.Audit.{AuditEvent, create_audit_event}
use go_metrics_stas.Model.{Metrics}
use go_metrics_stas.Outcome.{Error, Result}
use go_metrics_stas.Repository.{Storage}
use go_metrics_stas.Repository.Lawful.{Lawful}
use go_metrics_stas.Repository.Batch.{deltas, last_value, counted}
use go_metrics_stas.Service
use go_metrics_stas.Service.Batch.{first_fault, fault, applied, outcome, update_batch_prefix}
use go_metrics_stas.Handler.{Std, Server, handle_service_error, batch_reply, publish, decode_body}
use go_metrics_stas.Handler.Json.{update_batch_json, batch_decoded, batch_done, as_json}
use go_metrics_stas.Handler.Json.Laws.{status-encode_to}

-- The items of a body, none of them if it does not decode.
abbrev pub items_of : Option (List Metrics) → List Metrics
items_of none = []
items_of (some items) = items

-- A body is refused that does not decode, or has a faulty item.
abbrev pub refused : Option (List Metrics) → Bool
refused none = true
refused (some items) = is_some (first_fault items)

module _ (std : Std) {S : Type 0} where
  abbrev pub told : Option (List Metrics) → Request → Server S → List AuditEvent
  told batch r s =
      if refused batch || is_empty (items_of batch) || not s.publisher
      then []
      else create_audit_event std.split_host_port (std.now r) r
          (map (λ (m : Metrics). m.id) (items_of batch))
        ∷ []

status-fault :
    (m : Metrics) (e : Error) (w : Writer)
    → w.sent ≡ none
    → fault m ≡ some e
    → status (handle_service_error e w) ≡ some 400
unfolding handle_service_error http_error
status-fault m e w unsent h = ground arith

status-first_fault :
    (items : List Metrics) (e : Error) (w : Writer)
    → w.sent ≡ none
    → first_fault items ≡ some e
    → status (handle_service_error e w) ≡ some 400
unfolding first_fault
status-first_fault [] e w unsent h = absurd (cc)
status-first_fault (m ∷ items) e w unsent h = elim (Option-cases (fault m)) [
  | inl f ↦ status-first_fault items e w unsent (sym (rw f refl) ∙ h)
  | inr (e', f) ↦ status-fault m e w unsent (f ∙ sym (rw f refl) ∙ h)
]

module _ (std : Std) {S : Type 0} where
  storage-publish_names :
      (names : List String) (r : Request) (s : Server S)
      → (publish std names r s).storage ≡ s.storage
  unfolding publish
  storage-publish_names names r s = ground arith

  events-publish_batch :
      (m : Metrics) (items : List Metrics) (r : Request) (s s' : Server S)
      → first_fault (m ∷ items) ≡ none
      → s'.publisher ≡ s.publisher
      → s'.events ≡ s.events
      → (publish std (map (λ (x : Metrics). x.id) (m ∷ items)) r s').events
        ≡ s.events ++ told std (some (m ∷ items)) r s
  unfolding publish
  events-publish_batch m items r s s' h p e = ground (arith, append-nil s.events)

module _ (std : Std) {S : Type 0} (repo : Storage S) (lw : Lawful repo) where
  open lw use {gauge_at, counter_at}

  abbrev pub TakesBatch :
      Option (List Metrics) → Request → Server S → Writer × Server S → String → Type 0
  TakesBatch batch r s out j =
      (status out.0 ≡ some (if refused batch then 400 else 200))
      × (out.1.events ≡ s.events ++ told std batch r s)
      × (counter_at out.1.storage j
          ≡ counted (counter_at s.storage j) (deltas j (applied (items_of batch))))
      × (gauge_at out.1.storage j
          ≡ or_else (last_value j (applied (items_of batch))) (gauge_at s.storage j))

  module _ (m : Metrics) (items : List Metrics) (r : Request) (s : Server S) (j : String) where
    TakesBatch-batch_done :
        (res : Result (Unit {0})) (store : S)
        → res ≡ outcome (first_fault (m ∷ items))
        → counter_at store j ≡ counted (counter_at s.storage j) (deltas j (applied (m ∷ items)))
        → gauge_at store j ≡ or_else (last_value j (applied (m ∷ items))) (gauge_at s.storage j)
        → TakesBatch
            (some (m ∷ items))
            r
            s
            (batch_done std repo (m ∷ items) (res, store) r (as_json new_writer) s)
            j
    unfolding batch_done
    TakesBatch-batch_done res store e c g = elim (Option-cases (first_fault (m ∷ items))) [
      | inl h ↦
          let s' = record s { storage = store } in
          let same = storage-publish_names std (map (λ (x : Metrics). x.id) (m ∷ items)) r s' in
          rw (e, h)
            (
              status-encode_to std (batch_reply (m ∷ items)),
              events-publish_batch std m items r s s' h refl refl ∙ ground arith,
              ap (λ st. counter_at st j) same ∙ c,
              ap (λ st. gauge_at st j) same ∙ g,
            )
      | inr (f, h) ↦
          rw (e, h)
            (
              status-first_fault (m ∷ items) f (as_json new_writer) refl h,
              sym (append-nil s.events),
              c,
              g,
            )
    ]

  TakesBatch-batch_decoded :
      (batch : Option (List Metrics)) (r : Request) (s : Server S) (j : String)
      → TakesBatch batch r s (batch_decoded std repo batch r (as_json new_writer) s) j
  unfolding batch_decoded http_error first_fault applied deltas last_value
  TakesBatch-batch_decoded none r s j = (refl, sym (append-nil s.events), refl, refl)
  TakesBatch-batch_decoded (some []) r s j = (refl, sym (append-nil s.events), refl, refl)
  TakesBatch-batch_decoded (some (m ∷ items)) r s j =
      let (e, c, g) = update_batch_prefix repo lw (m ∷ items) s.storage j in
      let out = Service.update_batch repo (m ∷ items) s.storage in
      TakesBatch-batch_done m items r s j out.0 out.1 e c g

  -- A batch in the body, `POST /updates`, over a lawful storage. A body that does not decode, and a
  -- batch with a faulty item, are answered with 400, and the publisher is told nothing; yet the items
  -- before the first faulty one are applied, and stay so. Any other batch is answered with 200, all
  -- of it is applied, and, unless it is empty, the publisher is told the names, once and in order.
  pub update_batch_json_lem :
      (r : Request) (s : Server S) (j : String)
      → TakesBatch
          (decode_body std.decode_batch r.body)
          r
          s
          (update_batch_json std repo r new_writer s)
          j
  unfolding update_batch_json
  update_batch_json_lem r s j = TakesBatch-batch_decoded (decode_body std.decode_batch r.body) r s j
