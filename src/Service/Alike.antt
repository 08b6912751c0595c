-- ===== src/Service/Alike.antt =====
-- The service over two storages that answer alike.
use go_metrics_stas.Prelude.{
  ◌^◌, ◌<◌, String, ◌≡◌, refl, ap, Option, none, some, List, [], ◌∷◌, ◌==◌, All, Bool-cases, inl,
  inr,
}
use go_metrics_stas.Model.{Int64, Float64, Metrics, gauge, counter}
use go_metrics_stas.Outcome.{Result, ok, err, continue}
use go_metrics_stas.Repository.{Storage}
use go_metrics_stas.Repository.Pg.Checked.{Fits}
use go_metrics_stas.Service.{
  update_gauge, update_counter, get_gauge, get_counter, batch_gauge, batch_counter, update_item,
  update_batch, hide_gauge, hide_counter, map_error,
}

-- States of two storages that match, kept by the methods that the service calls.
pub record Matching {S T : Type 0} (st : Storage S) (other : Storage T) : Type 1 where
  pub Matches : S → T → Type 0
  pub update_gauge :
      (id : String) (v : Float64) (s : S) (t : T)
      → Matches s t
      → Matches (st.update_gauge id v s) (other.update_gauge id v t)
  pub update_counter :
      (id : String) (d : Int64) (s : S) (t : T)
      → d < 2 ^ 64
      → Matches s t
      → Matches (st.update_counter id d s) (other.update_counter id d t)
  pub get_gauge :
      (id : String) (s : S) (t : T)
      → Matches s t
      → ((st.get_gauge id s).0 ≡ (other.get_gauge id t).0)
        × Matches (st.get_gauge id s).1 (other.get_gauge id t).1
  pub get_counter :
      (id : String) (s : S) (t : T)
      → Matches s t
      → ((st.get_counter id s).0 ≡ (other.get_counter id t).0)
        × Matches (st.get_counter id s).1 (other.get_counter id t).1

module _ {S T : Type 0} (st : Storage S) (other : Storage T) (m : Matching st other) where
  -- The same result, in states that match.
  abbrev pub Alike : {A : Type 0} → Result A × S → Result A × T → Type 0
  Alike x y = (x.0 ≡ y.0) × m.Matches x.1 y.1

  pub update_gauge-Alike :
      (id : String) (v : Float64) (s : S) (t : T)
      → m.Matches s t
      → Alike (update_gauge st id v s) (update_gauge other id v t)
  unfolding update_gauge
  update_gauge-Alike id v s t h = elim (Bool-cases (id == "")) [
    | inl e ↦ rw e (refl, h)
    | inr e ↦ rw e (refl, m.update_gauge id v s t h)
  ]

  pub update_counter-Alike :
      (id : String) (d : Int64) (s : S) (t : T)
      → d < 2 ^ 64
      → m.Matches s t
      → Alike (update_counter st id d s) (update_counter other id d t)
  unfolding update_counter
  update_counter-Alike id d s t f h = elim (Bool-cases (id == "")) [
    | inl e ↦ rw e (refl, h)
    | inr e ↦ rw e (m.get_counter id _ _ (m.update_counter id d s t f h))
  ]

  pub get_gauge-Alike :
      (id : String) (s : S) (t : T)
      → m.Matches s t
      → Alike (get_gauge st id s) (get_gauge other id t)
  unfolding get_gauge
  get_gauge-Alike id s t h = elim (Bool-cases (id == "")) [
    | inl e ↦ rw e (refl, h)
    | inr e ↦ let (same, next) = m.get_gauge id s t h in rw e (ap (map_error hide_gauge) same, next)
  ]

  pub get_counter-Alike :
      (id : String) (s : S) (t : T)
      → m.Matches s t
      → Alike (get_counter st id s) (get_counter other id t)
  unfolding get_counter
  get_counter-Alike id s t h = elim (Bool-cases (id == "")) [
    | inl e ↦ rw e (refl, h)
    | inr e ↦
        let (same, next) = m.get_counter id s t h in rw e (ap (map_error hide_counter) same, next)
  ]

  batch_gauge-Alike :
      (id : String) (o : Option Float64) (s : S) (t : T)
      → m.Matches s t
      → Alike (batch_gauge st id o s) (batch_gauge other id o t)
  unfolding batch_gauge
  batch_gauge-Alike id none s t h = (refl, h)
  batch_gauge-Alike id (some v) s t h = (refl, m.update_gauge id v s t h)

  batch_counter-Alike :
      (id : String) (o : Option Int64) (s : S) (t : T)
      → Fits o
      → m.Matches s t
      → Alike (batch_counter st id o s) (batch_counter other id o t)
  unfolding batch_counter
  batch_counter-Alike id none s t f h = (refl, h)
  batch_counter-Alike id (some d) s t f h = (refl, m.update_counter id d s t f h)

  update_item-Alike :
      (x : Metrics) (s : S) (t : T)
      → Fits x.delta
      → m.Matches s t
      → Alike (update_item st x s) (update_item other x t)
  unfolding update_item
  update_item-Alike x s t f h = elim (Bool-cases (x.id == "")) [
    | inl a ↦ rw a (refl, h)
    | inr a ↦ elim (Bool-cases (x.mtype == gauge)) [
      | inl b ↦ rw (a, b) (batch_gauge-Alike x.id x.value s t h)
      | inr b ↦ elim (Bool-cases (x.mtype == counter)) [
        | inl c ↦ rw (a, b, c) (batch_counter-Alike x.id x.delta s t f h)
        | inr c ↦ rw (a, b, c) (refl, h)
      ]
    ]
  ]

  continue-Alike :
      (r q : Result (Unit {0})) (items : List Metrics) (s : S) (t : T)
      → r ≡ q
      → m.Matches s t
      → Alike (update_batch st items s) (update_batch other items t)
      → Alike
          (continue r (λ u. update_batch st items) s)
          (continue q (λ u. update_batch other items) t)
  continue-Alike (ok a) q items s t e h rest = rw (← e) rest
  continue-Alike (err x) q items s t e h rest = rw (← e) (refl, h)

  pub update_batch-Alike :
      (items : List Metrics) (s : S) (t : T)
      → All (λ x. Fits x.delta) items
      → m.Matches s t
      → Alike (update_batch st items s) (update_batch other items t)
  unfolding update_batch
  update_batch-Alike [] s t f h = (refl, h)
  update_batch-Alike (x ∷ items) s t (f, fs) h =
      let (same, next) = update_item-Alike x s t f h in
      continue-Alike _ _ items _ _ same next (update_batch-Alike items _ _ fs next)
