-- ===== src/Repository/Mem/Named.antt =====
-- `GetAllMetrics` lists every metric under its own name.
use go_metrics_stas.Prelude.{String, ◌≡◌, refl, [], ◌∷◌, arith}
use go_metrics_stas.Dict.{Dict, put, put_all}
use go_metrics_stas.Model.{Int64, Float64, Metrics}
use go_metrics_stas.Repository.Mem.{MemStorage, list_gauges, list_counters, collect_all}

-- Every value bears the name of its key.
abbrev pub IsNamed : Dict Metrics → Type 0
IsNamed [] = Unit
IsNamed ((k, m) ∷ d) = (m.id ≡ k) × IsNamed d

put-IsNamed :
    (k : String) (m : Metrics) (d : Dict Metrics) → m.id ≡ k → IsNamed d → IsNamed (put k m d)
unfolding put
put-IsNamed k m [] e h = (e, tt)
put-IsNamed k m ((i, n) ∷ d) e h = ground (arith, put-IsNamed k m d e h.1)

put_all-IsNamed : (m d : Dict Metrics) → IsNamed m → IsNamed d → IsNamed (put_all m d)
unfolding put_all
put_all-IsNamed [] d n h = h
put_all-IsNamed ((k, v) ∷ m) d n h = put_all-IsNamed m (put k v d) n.1 (put-IsNamed k v d n.0 h)

list_gauges-IsNamed : (m : Dict Float64) → IsNamed (list_gauges m)
unfolding list_gauges
list_gauges-IsNamed [] = tt
list_gauges-IsNamed ((k, v) ∷ m) = (refl, list_gauges-IsNamed m)

list_counters-IsNamed : (m : Dict Int64) → IsNamed (list_counters m)
unfolding list_counters
list_counters-IsNamed [] = tt
list_counters-IsNamed ((k, v) ∷ m) = (refl, list_counters-IsNamed m)

pub collect_all-IsNamed : (ms : MemStorage) → IsNamed (collect_all ms)
unfolding collect_all
collect_all-IsNamed ms =
    put_all-IsNamed (list_counters ms.counters) _ (list_counters-IsNamed ms.counters)
      (put_all-IsNamed (list_gauges ms.gauges) [] (list_gauges-IsNamed ms.gauges) tt)
