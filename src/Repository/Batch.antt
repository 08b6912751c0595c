-- ===== src/Repository/Batch.antt =====
-- What a batch of metrics means, key by key, whatever stores it: a counter adds up the deltas of its
-- items, a gauge takes the last value.
pub mod Pick
use mathlib.Core.List.{Perm, Permᴰ}
use mathlib.Core.Logic.{∥∥₁_elim}
use native.Mathlib.Nat.{ℕ_set}
use go_metrics_stas.Prelude.{
  ℕ, ◌+◌, ◌%◌, ◌^◌, String, ◌≡◌, refl, ◌∙◌, Option, none, some, Bool, ◌&&◌, List, [], ◌∷◌, ◌==◌,
  arith, if◌then◌else◌, is_empty, or_else,
}
use go_metrics_stas.Model.{Int64, Float64, counter, gauge, Metrics}
use go_metrics_stas.Repository.Mem.{or_zero}

abbrev pub cons_some {ℓ} : {A : Type ℓ} → Option A → List A → List A
cons_some none xs = xs
cons_some (some x) xs = x ∷ xs

unfoldable pub keep_delta : String → Metrics → List Int64 → List Int64
keep_delta j m ds = if m.mtype == counter && m.id == j then cons_some m.delta ds else ds

-- The deltas that a batch holds for a counter, in order.
unfoldable pub deltas : String → List Metrics → List Int64
deltas j [] = []
deltas j (m ∷ items) = keep_delta j m (deltas j items)

-- The last value that a batch holds for a gauge.
unfoldable pub last_value : String → List Metrics → Option Float64
last_value j [] = none
last_value j (m ∷ items) =
    or_else (last_value j items) (if m.mtype == gauge && m.id == j then m.value else none)

unfoldable pub sum : List ℕ → ℕ
sum [] = 0
sum (x ∷ xs) = x + sum xs

-- A counter after some deltas: absent if it was and there is none, else the sum modulo 2 ^ 64.
abbrev pub counted : Option Int64 → List Int64 → Option Int64
counted o ds = if is_empty ds then o else some ((or_zero o + sum ds) % 2 ^ 64)

sum-keep_delta :
    (j : String) (m : Metrics) (ds : List Int64)
    → sum (keep_delta j m ds) ≡ sum (keep_delta j m []) + sum ds
unfolding sum keep_delta
sum-keep_delta j m ds = ground arith

is_empty-keep_delta :
    (j : String) (m : Metrics) (ds : List Int64)
    → is_empty (keep_delta j m ds) ≡ (is_empty (keep_delta j m []) && is_empty ds)
unfolding keep_delta
is_empty-keep_delta j m ds = ground arith

sum-deltas-Permᴰ :
    (j : String) {xs ys : List Metrics} → Permᴰ xs ys → sum (deltas j xs) ≡ sum (deltas j ys)
unfolding deltas
sum-deltas-Permᴰ j Permᴰ.nil = refl
sum-deltas-Permᴰ j (Permᴰ.cons {b = b} {l₁ = xs} {l₂ = ys} e p) =
    rw e (omega (arith, sum-keep_delta, sum-deltas-Permᴰ j p))
sum-deltas-Permᴰ j (Permᴰ.swap {a' = a} {b' = b} {l = l} e f) =
    rw (e, f) (omega (arith, sum-keep_delta))
sum-deltas-Permᴰ j (Permᴰ.trans p q) = sum-deltas-Permᴰ j p ∙ sum-deltas-Permᴰ j q

is_empty-deltas-Permᴰ :
    (j : String) {xs ys : List Metrics}
    → Permᴰ xs ys
    → is_empty (deltas j xs) ≡ is_empty (deltas j ys)
unfolding deltas
is_empty-deltas-Permᴰ j Permᴰ.nil = refl
is_empty-deltas-Permᴰ j (Permᴰ.cons {b = b} {l₁ = xs} {l₂ = ys} e p) = rw (
  e,
  is_empty-keep_delta j b (deltas j xs),
  is_empty-keep_delta j b (deltas j ys),
  is_empty-deltas-Permᴰ j p,
)
is_empty-deltas-Permᴰ j (Permᴰ.swap {a' = a} {b' = b} {l = l} e f) =
    rw (e, f)
      (ground (
        arith,
        is_empty-keep_delta j b (keep_delta j a (deltas j l)),
        is_empty-keep_delta j a (deltas j l),
        is_empty-keep_delta j a (keep_delta j b (deltas j l)),
        is_empty-keep_delta j b (deltas j l),
      ))
is_empty-deltas-Permᴰ j (Permᴰ.trans p q) = is_empty-deltas-Permᴰ j p ∙ is_empty-deltas-Permᴰ j q

-- Reordering a batch leaves what it does to a counter.
pub counted-perm :
    (j : String) (o : Option Int64) {xs ys : List Metrics}
    → Perm xs ys
    → counted o (deltas j xs) ≡ counted o (deltas j ys)
counted-perm j o p = ∥∥₁_elim p (hlevel) λ q. rw (sum-deltas-Permᴰ j q, is_empty-deltas-Permᴰ j q)
