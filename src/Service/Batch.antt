-- ===== src/Service/Batch.antt =====
-- `UpdateBatch` of the service: which part of a batch is applied, and which error is returned.
use go_metrics_stas.Prelude.{
  String, ◌≡◌, refl, ap, ◌∙◌, Option, none, some, true, false, List, [], ◌∷◌, ◌==◌, arith, eq_iff,
  if◌then◌else◌, ◌&&◌, or_else, Option-cases, Bool-cases, inl, inr, is_some,
}
use go_metrics_stas.Model.{Int64, Float64, Metrics, gauge, counter, counter_of_gauge}
use go_metrics_stas.Outcome.{
  Error, invalid_metric_type, invalid_metric_id, missing_value, missing_delta, Result, ok, err,
  continue,
}
use go_metrics_stas.Repository.{Storage}
use go_metrics_stas.Repository.Lawful.{Lawful}
use go_metrics_stas.Repository.Batch.{deltas, keep_delta, cons_some, last_value, sum, counted}
use go_metrics_stas.Service.{update_item, batch_gauge, batch_counter, update_batch}

-- What is wrong with an item: it must bear a name, a known type, and the number of that type.
abbrev pub fault : Metrics → Option Error
fault m =
    if m.id == ""
    then some invalid_metric_id
    else if m.mtype == gauge
    then (if is_some m.value then none else some missing_value)
    else if m.mtype == counter
    then (if is_some m.delta then none else some missing_delta)
    else some invalid_metric_type

-- The items before the first faulty one, and its fault.
unfoldable pub applied : List Metrics → List Metrics
applied [] = []
applied (m ∷ items) = if is_some (fault m) then [] else m ∷ applied items

unfoldable pub first_fault : List Metrics → Option Error
first_fault [] = none
first_fault (m ∷ items) = or_else (fault m) (first_fault items)

abbrev pub outcome : Option Error → Result (Unit {0})
outcome none = ok tt
outcome (some e) = err e

-- The kinds of item that the code tells apart.
data Shape (m : Metrics) : Type 0 where
  unnamed : (m.id == "") ≡ true → Shape m
  of_gauge :
      (m.id == "") ≡ false → (m.mtype == gauge) ≡ true → (m.mtype == counter) ≡ false → Shape m
  of_counter :
      (m.id == "") ≡ false → (m.mtype == gauge) ≡ false → (m.mtype == counter) ≡ true → Shape m
  unknown :
      (m.id == "") ≡ false → (m.mtype == gauge) ≡ false → (m.mtype == counter) ≡ false → Shape m

shape : (m : Metrics) → Shape m
shape m = elim (Bool-cases (m.id == "")) [
  | inl a ↦ unnamed a
  | inr a ↦ elim (Bool-cases (m.mtype == gauge)) [
    | inl b ↦ of_gauge a b (counter_of_gauge m.mtype b)
    | inr b ↦ elim (Bool-cases (m.mtype == counter)) [
      | inl c ↦ of_counter a b c
      | inr c ↦ unknown a b c
    ]
  ]
]

module _ {S : Type 0} (repo : Storage S) (lw : Lawful repo) where
  open lw use {
    gauge_at, counter_at, gauge_at-update_gauge, counter_at-update_gauge, gauge_at-update_counter,
    counter_at-update_counter,
  }

  module _ (s : S) (j : String) where
    counter_at-batch_gauge :
        (id : String) (o : Option Float64)
        → counter_at (batch_gauge repo id o s).1 j ≡ counter_at s j
    unfolding batch_gauge
    counter_at-batch_gauge id none = refl
    counter_at-batch_gauge id (some v) = counter_at-update_gauge id v s j

    gauge_at-batch_counter :
        (id : String) (o : Option Int64) → gauge_at (batch_counter repo id o s).1 j ≡ gauge_at s j
    unfolding batch_counter
    gauge_at-batch_counter id none = refl
    gauge_at-batch_counter id (some d) = gauge_at-update_counter id d s j

    counter_at-batch_counter :
        (id : String) (o : Option Int64) (ds : List Int64)
        → counted (counter_at (batch_counter repo id o s).1 j) ds
          ≡ counted (counter_at s j) (if id == j then cons_some o ds else ds)
    unfolding batch_counter sum
    counter_at-batch_counter id none ds = ground arith
    counter_at-batch_counter id (some d) ds =
        ground (arith, counter_at-update_counter id d s j, eq_iff id j)

    gauge_at-batch_gauge :
        (id : String) (o : Option Float64)
        → gauge_at (batch_gauge repo id o s).1 j
          ≡ or_else (if id == j then o else none) (gauge_at s j)
    unfolding batch_gauge
    gauge_at-batch_gauge id none = ground arith
    gauge_at-batch_gauge id (some v) = ground (arith, gauge_at-update_gauge id v s j)

  -- An item with no fault is applied as the storage's own batch applies it; a faulty one is not.
  module _ (m : Metrics) (s : S) where
    update_item-fault : (e : Error) → fault m ≡ some e → update_item repo m s ≡ (err e, s)
    unfolding update_item
    update_item-fault e h = ground arith

    ok-update_item : fault m ≡ none → (update_item repo m s).0 ≡ ok tt
    unfolding update_item
    ok-update_item h = ground arith

    counter_at-update_item :
        (j : String) (ds : List Int64)
        → fault m ≡ none
        → counted (counter_at (update_item repo m s).1 j) ds
          ≡ counted (counter_at s j) (keep_delta j m ds)
    unfolding update_item keep_delta
    counter_at-update_item j ds h = elim (shape m) [
      | unnamed a ↦ ground arith
      | of_gauge a b c ↦ rw (a, b, c, counter_at-batch_gauge s j m.id m.value)
      | of_counter a b c ↦ rw (a, b, c) (counter_at-batch_counter s j m.id m.delta ds)
      | unknown a b c ↦ ground arith
    ]

    gauge_at-update_item :
        (j : String)
        → fault m ≡ none
        → gauge_at (update_item repo m s).1 j
          ≡ or_else (if m.mtype == gauge && m.id == j then m.value else none) (gauge_at s j)
    unfolding update_item
    gauge_at-update_item j h = elim (shape m) [
      | unnamed a ↦ ground arith
      | of_gauge a b c ↦ rw (a, b) (gauge_at-batch_gauge s j m.id m.value)
      | of_counter a b c ↦ rw (a, b, c) (gauge_at-batch_counter s j m.id m.delta)
      | unknown a b c ↦ ground arith
    ]

  update_batch-cons :
      (m : Metrics) (items : List Metrics) (s : S)
      → fault m ≡ none
      → update_batch repo (m ∷ items) s ≡ update_batch repo items (update_item repo m s).1
  unfolding update_batch
  update_batch-cons m items s h =
      ap (λ r. continue r (λ _. update_batch repo items) (update_item repo m s).1)
        (ok-update_item m s h)

  update_batch-cons_fault :
      (m : Metrics) (items : List Metrics) (s : S) (e : Error)
      → fault m ≡ some e
      → update_batch repo (m ∷ items) s ≡ (err e, s)
  unfolding update_batch
  update_batch-cons_fault m items s e h = rw (update_item-fault m s e h)

  -- A batch returns the fault of its first faulty item (success if there is none), and the items
  -- before that one, and no others, are applied: each counter adds up their deltas for it, each gauge
  -- takes their last value for it.
  pub update_batch_prefix :
      (items : List Metrics) (s : S) (j : String)
      → ((update_batch repo items s).0 ≡ outcome (first_fault items))
        × (counter_at (update_batch repo items s).1 j
            ≡ counted (counter_at s j) (deltas j (applied items)))
        × (gauge_at (update_batch repo items s).1 j
            ≡ or_else (last_value j (applied items)) (gauge_at s j))
  unfolding first_fault applied deltas last_value
  update_batch_prefix [] s j = unfold update_batch in (refl, refl, refl)
  update_batch_prefix (m ∷ items) s j = elim (Option-cases (fault m)) [
    | inr (e, h) ↦ rw (update_batch-cons_fault m items s e h, h) (refl, refl, refl)
    | inl h ↦
        let (r, c, g) = update_batch_prefix items (update_item repo m s).1 j in
        rw (update_batch-cons m items s h, h)
          (
            r,
            c ∙ counter_at-update_item m s j (deltas j (applied items)) h,
            g ∙ ground (arith, gauge_at-update_item m s j h),
          )
  ]
