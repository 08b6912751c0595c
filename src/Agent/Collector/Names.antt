-- ===== src/Agent/Collector/Names.antt =====
-- What a collection holds: every metric of the model, and nothing else.
use go_metrics_stas.Prelude.{
  String, ◌≡◌, refl, sym, ap, ◌∙◌, ◌++◌, Option, none, some, Bool, true, false, not, ◌&&◌, ◌||◌,
  List, [], ◌∷◌, ◌==◌, is_some, arith, eq_iff, Bool-cases, inl, inr,
}
use go_metrics_stas.Dict.{Dict, get, put}
use go_metrics_stas.Dict.Laws.{get-put}
use go_metrics_stas.Model.{
  Int64, Float64, add_int64, Metrics, gauge_metrics, all_metrics, metric_poll_count,
  metric_random_value,
}
use go_metrics_stas.Repository.Mem.{of_gauge, of_counter}
use go_metrics_stas.Agent.Collector.{
  MemStats, stat, put_gauge, collect_name, collect_names, collect_metrics,
}

abbrev pub among : List String → String → Bool
among [] j = false
among (name ∷ names) j = name == j || among names j

-- A name that the loop has a number for, or leaves to the end.
abbrev known : MemStats → String → Bool
known st name =
    name == metric_random_value || (not (name == metric_poll_count) && is_some (stat st name))

abbrev all_known : MemStats → List String → Bool
all_known st [] = true
all_known st (name ∷ names) = known st name && all_known st names

all_known-gauge_metrics : (st : MemStats) → all_known st gauge_metrics ≡ true
unfolding stat
all_known-gauge_metrics st = refl

or_false : (b : Bool) → (b || false) ≡ b
or_false true = refl
or_false false = refl

module _ (st : MemStats) (j : String) where
  is_some-put_gauge :
      (name : String) (o : Option Float64) (m : Dict Metrics)
      → is_some o ≡ true
      → is_some (get j (put_gauge name o m)) ≡ (name == j || is_some (get j m))
  is_some-put_gauge name none m h = ground arith
  is_some-put_gauge name (some v) m h = ground (arith, get-put name j (of_gauge name v) m)

  is_some-collect_name :
      (name : String) (m : Dict Metrics)
      → known st name ≡ true
      → (metric_random_value == j) ≡ false
      → is_some (get j (collect_name st name m)) ≡ (name == j || is_some (get j m))
  unfolding collect_name
  is_some-collect_name name m h r =
      ground (arith, is_some-put_gauge name (stat st name) m, eq_iff name metric_random_value)

  is_some-collect_names :
      (names : List String) (m : Dict Metrics)
      → all_known st names ≡ true
      → (metric_random_value == j) ≡ false
      → is_some (get j (collect_names st names m)) ≡ (among names j || is_some (get j m))
  unfolding collect_names
  is_some-collect_names [] m h r = refl
  is_some-collect_names (name ∷ names) m h r =
      ground
        (arith, is_some-collect_names names (collect_name st name m), is_some-collect_name name m)

  is_some-put-put :
      (g c : Metrics) (m : Dict Metrics)
      → is_some (get j (put metric_random_value g (put metric_poll_count c m)))
        ≡ (metric_random_value == j || (metric_poll_count == j || is_some (get j m)))
  is_some-put-put g c m = ground (
    arith,
    get-put metric_random_value j g (put metric_poll_count c m),
    get-put metric_poll_count j c m,
  )

  among-append :
      (names : List String)
      → among (names ++ metric_poll_count ∷ []) j ≡ (metric_poll_count == j || among names j)
  among-append [] = ground arith
  among-append (name ∷ names) = ground (arith, among-append names)

  among_of_random : (metric_random_value == j) ≡ true → among all_metrics j ≡ true
  among_of_random h = rw (← (eq_iff metric_random_value j).0 h) refl

  is_some-collected :
      (g c : Metrics)
      → is_some (
          get j (
            put metric_random_value g
              (put metric_poll_count c (collect_names st gauge_metrics []))))
        ≡ among all_metrics j
  unfolding get
  is_some-collected g c = elim (Bool-cases (metric_random_value == j)) [
    | inl h ↦
        is_some-put-put g c (collect_names st gauge_metrics [])
        ∙ ap
            (λ b.
              b || (metric_poll_count == j || is_some (get j (collect_names st gauge_metrics []))))
            h
        ∙ sym (among_of_random h)
    | inr h ↦
        is_some-put-put g c (collect_names st gauge_metrics [])
        ∙ ap
            (λ b.
              b || (metric_poll_count == j || is_some (get j (collect_names st gauge_metrics []))))
            h
        ∙ ap (λ b. metric_poll_count == j || b)
            (is_some-collect_names gauge_metrics [] (all_known-gauge_metrics st) h
              ∙ or_false (among gauge_metrics j))
        ∙ sym (among-append gauge_metrics)
  ]

  -- A collection holds a metric for each name of the model, and for no other; `PollCount` among them
  -- is a counter with the number of this collection, and `RandomValue` a gauge with the number drawn.
  pub collect_metrics_lem :
      (random : Float64) (poll_count : Int64)
      → (is_some (get j (collect_metrics st random poll_count).0) ≡ among all_metrics j)
        × (get metric_poll_count (collect_metrics st random poll_count).0
            ≡ some (of_counter metric_poll_count (add_int64 poll_count 1)))
        × (get metric_random_value (collect_metrics st random poll_count).0
            ≡ some (of_gauge metric_random_value random))
  unfolding collect_metrics
  collect_metrics_lem random poll_count =
      let m = collect_names st gauge_metrics [] in
      let c = of_counter metric_poll_count (add_int64 poll_count 1) in
      let m' = put metric_poll_count c m in
      (
        is_some-collected (of_gauge metric_random_value random) c,
        get-put metric_random_value metric_poll_count (of_gauge metric_random_value random) m'
            ∙ get-put metric_poll_count metric_poll_count c m,
        get-put metric_random_value metric_random_value (of_gauge metric_random_value random) m',
      )
