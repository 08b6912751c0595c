-- ===== src/Handler/Takes.antt =====
-- What a handler that takes one metric does, over any lawful storage.
use go_metrics_stas.Prelude.{
  String, ◌≡◌, refl, sym, eq_iff, Option, none, some, List, [], ◌∷◌, ◌++◌, ◌==◌, if◌then◌else◌,
  or_else, is_some, arith,
}
use mathlib.Core.List.{append-nil}
use go_metrics_stas.Http.{Request, Writer, status}
use go_metrics_stas.Audit.{AuditEvent, create_audit_event}
use go_metrics_stas.Model.{Int64, Float64, Metrics}
use go_metrics_stas.Repository.{Storage}
use go_metrics_stas.Repository.Lawful.{Lawful}
use go_metrics_stas.Repository.Batch.{deltas, keep_delta, last_value, counted, sum}
use go_metrics_stas.Repository.Mem.{of_gauge, of_counter}
use go_metrics_stas.Handler.{Std, Server, Update, publish}

abbrev pub gauge_wanted : String → Option Float64 → Option Metrics
gauge_wanted name none = none
gauge_wanted name (some v) = some (of_gauge name v)

abbrev pub counter_wanted : String → Option Int64 → Option Metrics
counter_wanted name none = none
counter_wanted name (some d) = some (of_counter name d)

abbrev pub one_or_none {ℓ} : {A : Type ℓ} → Option A → List A
one_or_none none = []
one_or_none (some a) = a ∷ []

-- The metric that a kind, a name and the numbers describe; none where they describe none.
abbrev pub wanted : String → String → Option Float64 → Option Int64 → Option Metrics
wanted kind name value delta =
    if name == ""
    then none
    else if kind == "gauge"
    then gauge_wanted name value
    else if kind == "counter"
    then counter_wanted name delta
    else none

abbrev pub wanted_update : Option Update → Option Metrics
wanted_update none = none
wanted_update (some m) = wanted m.mtype m.id m.value m.delta

module _ (std : Std) {S : Type 0} where
  storage-publish :
      (names : List String) (r : Request) (s : Server S)
      → (publish std names r s).storage ≡ s.storage
  unfolding publish
  storage-publish names r s = ground arith

  events-publish :
      (name : String) (r : Request) (s : Server S)
      → (publish std (name ∷ []) r s).events
        ≡ s.events
          ++ (if s.publisher
              then create_audit_event std.split_host_port (std.now r) r (name ∷ []) ∷ []
              else [])
  unfolding publish
  events-publish name r s = ground (arith, append-nil s.events)

  abbrev pub heard : Option Metrics → Request → Server S → List AuditEvent
  heard none r s = []
  heard (some m) r s =
      if s.publisher
      then create_audit_event std.split_host_port (std.now r) r (m.id ∷ []) ∷ []
      else []

module _ (std : Std) {S : Type 0} (repo : Storage S) (lw : Lawful repo) where
  open lw use {
    gauge_at, counter_at, gauge_at-update_gauge, counter_at-update_gauge, gauge_at-update_counter,
    counter_at-update_counter,
  }

  -- A handler that takes the metric `m`, or refuses the request: the status, the event if there is a
  -- publisher, and the storage, key by key, as after a batch of that metric or of nothing.
  abbrev pub Takes : Option Metrics → Request → Server S → Writer × Server S → String → Type 0
  Takes m r s out j =
      (status out.0 ≡ some (if is_some m then 200 else 400))
      × (out.1.events ≡ s.events ++ heard std m r s)
      × (counter_at out.1.storage j ≡ counted (counter_at s.storage j) (deltas j (one_or_none m)))
      × (gauge_at out.1.storage j ≡ or_else (last_value j (one_or_none m)) (gauge_at s.storage j))

  pub Takes-none :
      (w : Writer) (r : Request) (s : Server S) (j : String)
      → status w ≡ some 400
      → Takes none r s (w, s) j
  unfolding deltas last_value
  Takes-none w r s j h = (h, sym (append-nil s.events), refl, refl)

  module _ (name : String) (w : Writer) (r : Request) (s : Server S) (j : String) where
    pub Takes-of_gauge :
        (v : Float64)
        → status w ≡ some 200
        → Takes
            (some (of_gauge name v))
            r
            s
            (
              w,
              publish std (name ∷ []) r (record s { storage = repo.update_gauge name v s.storage }),
            )
            j
    unfolding deltas keep_delta last_value
    Takes-of_gauge v h =
        let s' = record s { storage = repo.update_gauge name v s.storage } in
        (
          h,
          events-publish std name r s',
          ground (
            arith,
            storage-publish std (name ∷ []) r s',
            counter_at-update_gauge name v s.storage j,
          ),
          ground (
            arith,
            storage-publish std (name ∷ []) r s',
            gauge_at-update_gauge name v s.storage j,
          ),
        )

    pub Takes-of_counter :
        (d : Int64)
        → status w ≡ some 200
        → Takes
            (some (of_counter name d))
            r
            s
            (
              w,
              publish std
                  (name ∷ [])
                  r
                  (record s { storage = repo.update_counter name d s.storage }),
            )
            j
    unfolding deltas keep_delta last_value sum
    Takes-of_counter d h =
        let s' = record s { storage = repo.update_counter name d s.storage } in
        (
          h,
          events-publish std name r s',
          ground (
            arith,
            storage-publish std (name ∷ []) r s',
            counter_at-update_counter name d s.storage j,
            eq_iff name j,
          ),
          ground (
            arith,
            storage-publish std (name ∷ []) r s',
            gauge_at-update_counter name d s.storage j,
          ),
        )
