-- ===== src/Dict/Laws.antt =====
-- The laws of maps.
use go_metrics_stas.Prelude.{
  String, ◌≡◌, ◌≢◌, refl, none, some, [], ◌∷◌, ◌==◌, arith, eq_iff, if◌then◌else◌, All, or_else,
}
use go_metrics_stas.Dict.{Dict, get, put, remove, put_all, keys}

module _ {ℓ} {V : Type ℓ} where
  pub get-put :
      (k j : String) (v : V) (m : Dict V) → get j (put k v m) ≡ (if k == j then some v else get j m)
  unfolding get put
  get-put k j v [] = refl
  get-put k j v ((i, w) ∷ m) = ground (arith, eq_iff k j, eq_iff i k, eq_iff i j, get-put k j v m)

  pub get-remove :
      (k j : String) (m : Dict V) → get j (remove k m) ≡ (if k == j then none else get j m)
  unfolding get remove
  get-remove k j [] = ground arith
  get-remove k j ((i, w) ∷ m) = ground (arith, eq_iff k j, eq_iff i k, eq_iff i j, get-remove k j m)

  -- No key stands twice.
  abbrev pub HasDistinctKeys : Dict V → Type 0
  HasDistinctKeys [] = Unit
  HasDistinctKeys ((k, v) ∷ m) = All (λ j. k ≢ j) (keys m) × HasDistinctKeys m

  keys-put-All :
      (P : String → Type 0) (k : String) (v : V) (m : Dict V)
      → P k
      → All P (keys m)
      → All P (keys (put k v m))
  unfolding put
  keys-put-All P k v [] h hs = (h, tt)
  keys-put-All P k v ((i, w) ∷ m) h hs = ground (arith, keys-put-All P k v m h, hs)

  pub put-HasDistinctKeys :
      (k : String) (v : V) (m : Dict V) → HasDistinctKeys m → HasDistinctKeys (put k v m)
  unfolding put
  put-HasDistinctKeys k v [] h = (tt, tt)
  put-HasDistinctKeys k v ((i, w) ∷ m) h =
      ground (arith, eq_iff i k, put-HasDistinctKeys k v m, keys-put-All (λ j. i ≢ j) k v m)

  pub get-eq-none : (k : String) (m : Dict V) → All (λ j. k ≢ j) (keys m) → get k m ≡ none
  unfolding get
  get-eq-none k [] h = refl
  get-eq-none k ((i, w) ∷ m) h = ground (arith, eq_iff i k, get-eq-none k m h.1)

  -- The entries of a range win over what the map held.
  pub get-put_all :
      (k : String) (m n : Dict V)
      → HasDistinctKeys m
      → get k (put_all m n) ≡ or_else (get k m) (get k n)
  unfolding put_all get
  get-put_all k [] n h = refl
  get-put_all k ((j, v) ∷ m) n h =
      ground
        (arith, get-put_all k m (put j v n) h.1, get-put j k v n, eq_iff j k, get-eq-none j m h.0)

  keys-remove-All :
      (P : String → Type 0) (k : String) (m : Dict V) → All P (keys m) → All P (keys (remove k m))
  unfolding remove
  keys-remove-All P k [] h = h
  keys-remove-All P k ((i, w) ∷ m) h = ground (arith, keys-remove-All P k m h.1)

  pub remove-HasDistinctKeys :
      (k : String) (m : Dict V) → HasDistinctKeys m → HasDistinctKeys (remove k m)
  unfolding remove
  remove-HasDistinctKeys k [] h = h
  remove-HasDistinctKeys k ((i, w) ∷ m) h =
      ground (arith, remove-HasDistinctKeys k m h.1, keys-remove-All (λ j. i ≢ j) k m h.0)

  pub put_all-HasDistinctKeys : (m n : Dict V) → HasDistinctKeys n → HasDistinctKeys (put_all m n)
  unfolding put_all
  put_all-HasDistinctKeys [] n h = h
  put_all-HasDistinctKeys ((k, v) ∷ m) n h =
      put_all-HasDistinctKeys m (put k v n) (put-HasDistinctKeys k v n h)
