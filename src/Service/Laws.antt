-- ===== src/Service/Laws.antt =====
-- What `metricsService` guarantees over a lawful storage, on every branch.
use go_metrics_stas.Prelude.{String, ◌≡◌, ◌≢◌, refl, ◌==◌, arith, eq_iff, eq_refl, if◌then◌else◌}
use go_metrics_stas.Prelude.Text.{eq_false_of_ne}
use go_metrics_stas.Model.{Int64, Float64, add_int64}
use go_metrics_stas.Outcome.{metric_not_found, invalid_metric_id, ok, err}
use go_metrics_stas.Repository.{Storage}
use go_metrics_stas.Repository.Lawful.{Lawful}
use go_metrics_stas.Repository.Mem.{or_zero, found}
use go_metrics_stas.Service.{update_gauge, update_counter, get_gauge, get_counter}

module _ {S : Type 0} (repo : Storage S) (lw : Lawful repo) where
  open lw use {
    gauge_at, counter_at, gauge_at-update_gauge, counter_at-update_gauge, gauge_at-update_counter,
    counter_at-update_counter, get_gauge_lem, get_counter_lem,
  }

  get_gauge-eq-found :
      (id : String) (s : S)
      → get_gauge repo id s
        ≡ ((if id == "" then err invalid_metric_id else found metric_not_found (gauge_at s id)), s)
  unfolding get_gauge
  get_gauge-eq-found id s = ground (arith, get_gauge_lem id s)

  get_counter-eq-found :
      (id : String) (s : S)
      → get_counter repo id s ≡ (
        (if id == "" then err invalid_metric_id else found metric_not_found (counter_at s id)),
        s,
      )
  unfolding get_counter
  get_counter-eq-found id s = ground (arith, get_counter_lem id s)

  -- A read of a gauge or of a counter gives what the storage holds under the name, "metric not found"
  -- where it holds none, and "metric id is required" at the empty name; it changes nothing.
  pub reads_exact :
      (id : String) (s : S)
      → (get_gauge repo id s ≡ (
        (if id == "" then err invalid_metric_id else found metric_not_found (gauge_at s id)),
        s,
      ))
        × (get_counter repo id s ≡ (
          (if id == "" then err invalid_metric_id else found metric_not_found (counter_at s id)),
          s,
        ))
  reads_exact id s = (get_gauge-eq-found id s, get_counter-eq-found id s)

  -- After an update of a gauge at a name that is not empty, a read of that name gives the value, a
  -- read of any other name, and of any counter, gives what it gave before.
  pub get-update_gauge :
      (id : String) (v : Float64) (s : S)
      → id ≢ ""
      → ((update_gauge repo id v s).0 ≡ ok tt)
        × ((j : String)
            → (get_gauge repo j (update_gauge repo id v s).1).0
              ≡ (if id == j then ok v else (get_gauge repo j s).0))
        × ((j : String)
            → (get_counter repo j (update_gauge repo id v s).1).0 ≡ (get_counter repo j s).0)
  unfolding update_gauge
  get-update_gauge id v s h = rw (eq_false_of_ne h) (
    refl,
    (λ j. ground (
      arith,
      get_gauge-eq-found j (repo.update_gauge id v s),
      get_gauge-eq-found j s,
      gauge_at-update_gauge id v s j,
      eq_iff id j,
      eq_iff id "",
    )),
    (λ j. ground (
      arith,
      get_counter-eq-found j (repo.update_gauge id v s),
      get_counter-eq-found j s,
      counter_at-update_gauge id v s j,
    )),
  )

  pub update_counter-eq-total :
      (id : String) (d : Int64) (s : S)
      → id ≢ ""
      → update_counter repo id d s
        ≡ (ok (add_int64 (or_zero (counter_at s id)) d), repo.update_counter id d s)
  unfolding update_counter
  update_counter-eq-total id d s h =
      rw (eq_false_of_ne h, get_counter_lem, counter_at-update_counter, eq_refl id)

  read_counter :
      (id : String) (d : Int64) (s : S)
      → id ≢ ""
      → (j : String)
      → (get_counter repo j (repo.update_counter id d s)).0 ≡ (
          if id == j
          then ok (add_int64 (or_zero (counter_at s id)) d)
          else (get_counter repo j s).0)
  read_counter id d s h j = ground (
    arith,
    get_counter-eq-found j (repo.update_counter id d s),
    get_counter-eq-found j s,
    counter_at-update_counter id d s j,
    eq_iff id j,
    eq_iff id "",
  )

  -- An update of a counter at a name that is not empty returns the old total (0 if there was none)
  -- plus the delta, modulo 2 ^ 64, and a read of the name gives the same; a read of any other name,
  -- and of any gauge, gives what it gave before.
  pub get-update_counter :
      (id : String) (d : Int64) (s : S)
      → id ≢ ""
      → ((update_counter repo id d s).0 ≡ ok (add_int64 (or_zero (counter_at s id)) d))
        × ((j : String)
            → (get_counter repo j (update_counter repo id d s).1).0 ≡ (
                if id == j
                then ok (add_int64 (or_zero (counter_at s id)) d)
                else (get_counter repo j s).0))
        × ((j : String)
            → (get_gauge repo j (update_counter repo id d s).1).0 ≡ (get_gauge repo j s).0)
  get-update_counter id d s h = rw (update_counter-eq-total id d s h) (
    refl,
    (λ j. read_counter id d s h j),
    (λ j. ground (
      arith,
      get_gauge-eq-found j (repo.update_counter id d s),
      get_gauge-eq-found j s,
      gauge_at-update_counter id d s j,
    )),
  )
