-- ===== src/Repository/Batch/Pick.antt =====
-- The items of a batch that bear one name. What a batch does to a name is what they do, and a list
-- of the values of a map, in whatever order, has one at most.
use mathlib.Core.List.{Perm, Permᴰ}
use mathlib.Core.List.Perm
use mathlib.Core.Logic.{∥∥₁_elim}
use mathlib.Core.Path.{ap₂}
use mathlib.Core.HLevel.{hedberg}
use go_metrics_stas.Prelude.Text.{ne_of_eq_false}
use go_metrics_stas.Prelude.{
  String, ◌∙◌, ◌≤◌, length, ◌≡◌, ◌≢◌, refl, Option, none, some, Bool, true, false, List, [], ◌∷◌,
  ◌==◌, arith, eq_iff, if◌then◌else◌, Bool-cases, inl, inr, All,
}
use go_metrics_stas.Dict.{Dict, get, keys, values}
use go_metrics_stas.Dict.Laws.{HasDistinctKeys}
use go_metrics_stas.Model.{Metrics}
use go_metrics_stas.Repository.Mem.Named.{IsNamed}
use go_metrics_stas.Repository.Batch.{deltas, keep_delta, last_value}

pub pick : String → List Metrics → List Metrics
pick j [] = []
pick j (m ∷ items) = if m.id == j then m ∷ pick j items else pick j items

pub deltas-pick : (j : String) (items : List Metrics) → deltas j (pick j items) ≡ deltas j items
unfolding pick deltas keep_delta
deltas-pick j [] = refl
deltas-pick j (m ∷ items) = ground (arith, deltas-pick j items)

pub last_value-pick :
    (j : String) (items : List Metrics) → last_value j (pick j items) ≡ last_value j items
unfolding pick last_value
last_value-pick j [] = refl
last_value-pick j (m ∷ items) = ground (arith, last_value-pick j items)

swap_picks :
    (a b : Metrics) (l : List Metrics) (p q : Bool)
    → Perm
        (if p then a ∷ (if q then b ∷ l else l) else (if q then b ∷ l else l))
        (if q then b ∷ (if p then a ∷ l else l) else (if p then a ∷ l else l))
swap_picks a b l true true = Perm.swap b a l
swap_picks a b l true false = Perm.refl _
swap_picks a b l false true = Perm.refl _
swap_picks a b l false false = Perm.refl _

pick-Permᴰ : (j : String) {xs ys : List Metrics} → Permᴰ xs ys → Perm (pick j xs) (pick j ys)
unfolding pick
pick-Permᴰ j Permᴰ.nil = Perm.refl []
pick-Permᴰ j (Permᴰ.cons {b = b} e p) = rw e (elim (Bool-cases (b.id == j)) [
  | inl h ↦ rw h (Perm.cons b (pick-Permᴰ j p))
  | inr h ↦ rw h (pick-Permᴰ j p)
])
pick-Permᴰ j (Permᴰ.swap {a' = a} {b' = b} {l = l} e f) =
    rw (e, f) (swap_picks b a (pick j l) (b.id == j) (a.id == j))
pick-Permᴰ j (Permᴰ.trans p q) = Perm.trans (pick-Permᴰ j p) (pick-Permᴰ j q)

pick-perm : (j : String) {xs ys : List Metrics} → Perm xs ys → Perm (pick j xs) (pick j ys)
pick-perm j p = ∥∥₁_elim p (hlevel) (pick-Permᴰ j)

-- A list of one item at most has one order.
eq_of_Permᴰ : {xs ys : List Metrics} → Permᴰ xs ys → length ys ≤ 1 → xs ≡ ys
eq_of_Permᴰ Permᴰ.nil h = refl
eq_of_Permᴰ (Permᴰ.cons e p) h = ap₂ ◌∷◌ e (eq_of_Permᴰ p (omega arith))
eq_of_Permᴰ (Permᴰ.swap e f) h = absurd (omega arith)
eq_of_Permᴰ (Permᴰ.trans p q) h = let e = eq_of_Permᴰ q h in eq_of_Permᴰ p (rw e h) ∙ e

abbrev pub at_most_one : Option Metrics → List Metrics
at_most_one none = []
at_most_one (some m) = m ∷ []

length-at_most_one : (o : Option Metrics) → length (at_most_one o) ≤ 1
length-at_most_one none = omega arith
length-at_most_one (some m) = omega arith

pick-values-eq-nil :
    (j : String) (d : Dict Metrics) → IsNamed d → All (λ k. j ≢ k) (keys d) → pick j (values d) ≡ []
unfolding pick
pick-values-eq-nil j [] n h = refl
pick-values-eq-nil j ((k, m) ∷ d) n h =
    ground (arith, pick-values-eq-nil j d n.1 h.1, eq_iff m.id j)

pick-values :
    (j : String) (d : Dict Metrics)
    → IsNamed d
    → HasDistinctKeys d
    → pick j (values d) ≡ at_most_one (get j d)
unfolding pick get
pick-values j [] n h = refl
pick-values j ((k, m) ∷ d) n h =
    ground (
      arith,
      n.0,
      pick-values j d n.1 h.1,
      pick-values-eq-nil k d n.1 h.0,
      eq_iff k j,
      eq_iff m.id j,
    )

String-discrete : Discrete String
String-discrete s t = elim (Bool-cases (s == t)) [
  | inl e ↦ yes ((eq_iff s t).0 e)
  | inr e ↦ no (ne_of_eq_false e)
]

module _ (j : String) (d : Dict Metrics) (named : IsNamed d) (distinct : HasDistinctKeys d) where
  -- Of the values of a map, in any order, those of one name are what the map holds under it.
  pub pick-eq-get :
      {items : List Metrics} → Perm items (values d) → pick j items ≡ at_most_one (get j d)
  pick-eq-get {items} p =
      let e = pick-values j d named distinct in
      ∥∥₁_elim (pick-perm j p) (hlevel (hedberg String-discrete))
        (λ q. eq_of_Permᴰ q (rw e (length-at_most_one (get j d))) ∙ e)
