-- ===== src/Handler/Page/Shown.antt =====
-- What the page of all metrics shows of a storage in memory.
use mathlib.Core.Logic.{∥∥₁_elim}
use mathlib.Core.Path.{subst}
use mathlib.Core.List.{Perm, Permᴰ}
use go_metrics_stas.Prelude.Text.{concat}
use go_metrics_stas.Prelude.{
  ℕ, ◌+◌, String, ◌≡◌, ◌≢◌, refl, ap, ◌∙◌, Option, none, some, Bool, true, List, [], ◌∷◌, ◌==◌,
  ◌||◌, is_some, if◌then◌else◌, map, All, arith, eq_iff, Bool-cases, inl, inr,
}
use go_metrics_stas.Dict.{Dict, get, keys}
use go_metrics_stas.Dict.Laws.{HasDistinctKeys}
use go_metrics_stas.Http.{Request, Writer, set_header, write}
use go_metrics_stas.Model.{Int64, Float64}
use go_metrics_stas.Repository.Mem.{MemStorage, collect_all}
use go_metrics_stas.Repository.Mem.Laws.{
  IsValid, listed, get-collect_all, collect_all-HasDistinctKeys,
}
use go_metrics_stas.Repository.Mem.Lawfulness.{mem_storage}
use go_metrics_stas.Repository.Mem
use go_metrics_stas.Service
use go_metrics_stas.Handler.{Std, Server}
use go_metrics_stas.Handler.Page.{row_of, rows, list_all_metrics_html}
use go_metrics_stas.Handler.Page.Laws.{page_of, page-eq-page_of}

-- How often a name occurs.
abbrev pub times : String → List String → ℕ
times n [] = 0
times n (m ∷ names) = (if m == n then 1 else 0) + times n names

times-Permᴰ : (n : String) {xs ys : List String} → Permᴰ xs ys → times n xs ≡ times n ys
times-Permᴰ n Permᴰ.nil = refl
times-Permᴰ n (Permᴰ.cons e p) = rw e (omega (arith, times-Permᴰ n p))
times-Permᴰ n (Permᴰ.swap e f) = rw (e, f) (omega arith)
times-Permᴰ n (Permᴰ.trans p q) = times-Permᴰ n p ∙ times-Permᴰ n q

times-perm : (n : String) {xs ys : List String} → Perm xs ys → times n xs ≡ times n ys
times-perm n p = ∥∥₁_elim p (hlevel) (times-Permᴰ n)

times-absent : (n : String) (names : List String) → All (λ j. n ≢ j) names → times n names ≡ 0
times-absent n [] h = refl
times-absent n (m ∷ names) (f, h) = let g = times-absent n names h in ground (arith, eq_iff m n, f)

-- A dictionary has each of its names once.
times-keys :
    {V : Type 0} (n : String) (m : Dict V)
    → HasDistinctKeys m
    → times n (keys m) ≡ (if is_some (get n m) then 1 else 0)
unfolding get
times-keys n [] h = refl
times-keys n ((k, v) ∷ m) (f, h) = elim (Bool-cases (k == n)) [
  | inl e ↦ rw e (
      let same : k ≡ n = (eq_iff k n).0 e in
      omega (arith, times-absent n (keys m) (subst (λ j. All (λ i. j ≢ i) (keys m)) same f)))
  | inr e ↦ rw e (omega (arith, times-keys n m h))
]

listed-is_some :
    (n : String) (c : Option Int64) (g : Option Float64)
    → is_some (listed n c g) ≡ (is_some c || is_some g)
listed-is_some n (some d) g = refl
listed-is_some n none (some v) = refl
listed-is_some n none none = refl

abbrev pub one_if : Bool → ℕ
one_if b = if b then 1 else 0

has_either :
    (n : String) (ms : MemStorage)
    → IsValid ms
    → one_if (is_some (get n (collect_all ms)))
      ≡ one_if (is_some (get n ms.counters) || is_some (get n ms.gauges))
has_either n ms h =
    rw (get-collect_all n ms h, listed-is_some n (get n ms.counters) (get n ms.gauges)) refl

-- Each name is before all that follow it, or equal.
abbrev pub Ordered : (String → String → Bool) → List String → Type 0
Ordered le [] = Unit
Ordered le (n ∷ names) = All (λ m. le n m ≡ true) names × Ordered le names

abbrev pub line : String → String → String → String
line name kind number =
    concat ("<tr><td>" ∷ name ∷ "</td><td>" ∷ kind ∷ "</td><td>" ∷ number ∷ "</td></tr>" ∷ [])

module _ (std : Std) (escape : String → String) where
  -- The row of a name with this counter or this gauge; a counter hides a gauge of the same name.
  abbrev pub shown : String → Option Int64 → Option Float64 → String
  shown n (some d) g = line (escape n) (escape "counter") (escape (std.format_int d))
  shown n none (some v) = line (escape n) (escape "gauge") (escape (std.format_float v))
  shown n none none = line (escape n) (escape "") (escape "")

  row_of-shown :
      (sort : List String → List String) (n : String) (c : Option Int64) (g : Option Float64)
      → row_of std sort escape n (listed n c g) ≡ shown n c g
  row_of-shown sort n (some d) g = refl
  row_of-shown sort n none (some v) = refl
  row_of-shown sort n none none = refl

  rows-shown :
      (sort : List String → List String) (ms : MemStorage) (names : List String)
      → IsValid ms
      → rows std sort escape (collect_all ms) names
        ≡ map (λ n. shown n (get n ms.counters) (get n ms.gauges)) names
  rows-shown sort ms [] h = refl
  rows-shown sort ms (n ∷ names) h =
      rw
        (
          get-collect_all n ms h,
          row_of-shown sort n (get n ms.counters) (get n ms.gauges),
          rows-shown sort ms names h,
        )
        refl

  -- Over a storage in memory whose names are distinct, the page of all metrics has one row for each name
  -- that has a counter or a gauge, and no other row, in the order of sort.Strings: the name, its type and
  -- its number, each escaped, with the counter where a name has both. The storage and the server stay.
  -- sort.Strings is taken to give an ordered permutation of its argument.
  pub list_all_metrics_html-shown :
      (sort : List String → List String) (le : String → String → Bool) (r : Request) (w : Writer)
      (s : Server MemStorage)
      → ((names : List String) → Perm (sort names) names × Ordered le (sort names))
      → IsValid s.storage
      → (names : List String) × Ordered le names
        × ((n : String)
            → times n names
              ≡ one_if (is_some (get n s.storage.counters) || is_some (get n s.storage.gauges)))
        × (list_all_metrics_html std sort escape mem_storage r w s ≡ (
          write
              (page_of
                (map (λ n. shown n (get n s.storage.counters) (get n s.storage.gauges)) names))
              (set_header "Content-Type" "text/html; charset=utf-8" w),
          s,
        ))
  unfolding list_all_metrics_html Service.get_all_metrics Mem.get_all_metrics
  list_all_metrics_html-shown sort le r w s law valid =
      let ms = s.storage in
      let all = collect_all ms in
      (
        sort (keys all),
        (law (keys all)).1,
        (λ n.
            times-perm n (law (keys all)).0
            ∙ times-keys n all (collect_all-HasDistinctKeys ms)
            ∙ has_either n ms valid),
        ap (λ t. (write t (set_header "Content-Type" "text/html; charset=utf-8" w), s))
            (page-eq-page_of std sort escape all (sort (keys all))
              ∙ ap page_of (rows-shown sort ms (sort (keys all)) valid)),
      )
