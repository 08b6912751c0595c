-- ===== src/Repository/Lawful.antt =====
-- What a client may rely on of a `Storage`: each state shows a gauge and a counter under every name,
-- and the methods read and write this view and nothing else of it.
use go_metrics_stas.Prelude.{String, ◌≡◌, Option, some, List, ◌==◌, if◌then◌else◌, or_else}
use go_metrics_stas.Dict.{Dict, get}
use go_metrics_stas.Model.{Int64, Float64, add_int64, Metrics}
use go_metrics_stas.Outcome.{ok, counter_not_found, gauge_not_found}
use go_metrics_stas.Repository.{Storage}
use go_metrics_stas.Repository.Batch.{deltas, last_value, counted}
use go_metrics_stas.Repository.Mem.{or_zero, found}
use go_metrics_stas.Repository.Mem.Laws.{listed}

pub record Lawful {S : Type 0} (st : Storage S) : Type 1 where
  -- an invariant of the states that the methods reach
  pub IsValid : S → Type 0
  pub gauge_at : S → String → Option Float64
  pub counter_at : S → String → Option Int64
  pub update_gauge-IsValid :
      (id : String) (v : Float64) (s : S) → IsValid s → IsValid (st.update_gauge id v s)
  pub update_counter-IsValid :
      (id : String) (d : Int64) (s : S) → IsValid s → IsValid (st.update_counter id d s)
  pub update_batch-IsValid :
      (items : List Metrics) (s : S) → IsValid s → IsValid (st.update_batch items s).1
  pub gauge_at-update_gauge :
      (id : String) (v : Float64) (s : S) (j : String)
      → gauge_at (st.update_gauge id v s) j ≡ (if id == j then some v else gauge_at s j)
  pub counter_at-update_gauge :
      (id : String) (v : Float64) (s : S) (j : String)
      → counter_at (st.update_gauge id v s) j ≡ counter_at s j
  pub gauge_at-update_counter :
      (id : String) (d : Int64) (s : S) (j : String)
      → gauge_at (st.update_counter id d s) j ≡ gauge_at s j
  pub counter_at-update_counter :
      (id : String) (d : Int64) (s : S) (j : String)
      → counter_at (st.update_counter id d s) j
        ≡ (if id == j then some (add_int64 (or_zero (counter_at s id)) d) else counter_at s j)
  pub get_gauge_lem :
      (id : String) (s : S) → st.get_gauge id s ≡ (found gauge_not_found (gauge_at s id), s)
  pub get_counter_lem :
      (id : String) (s : S) → st.get_counter id s ≡ (found counter_not_found (counter_at s id), s)
  pub get_all_metrics_lem :
      (s : S)
      → IsValid s
      → (m : Dict Metrics) × (st.get_all_metrics s ≡ (ok m, s))
        × ((j : String) → get j m ≡ listed j (counter_at s j) (gauge_at s j))
  pub gauge_at-update_batch :
      (items : List Metrics) (s : S) (j : String)
      → gauge_at (st.update_batch items s).1 j ≡ or_else (last_value j items) (gauge_at s j)
  pub counter_at-update_batch :
      (items : List Metrics) (s : S) (j : String)
      → counter_at (st.update_batch items s).1 j ≡ counted (counter_at s j) (deltas j items)
