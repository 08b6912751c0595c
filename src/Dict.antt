-- ===== src/Dict.antt =====
-- Go's `map[string]V`: an association list that holds a key once. Every law is stated by `get`, so
-- nothing rests on the order in which Go ranges over a map.
pub mod Laws
use go_metrics_stas.Prelude.{String, Option, none, some, Bool, List, [], ◌∷◌, ◌==◌, if◌then◌else◌}

abbrev pub Dict {ℓ} : Type ℓ → Type ℓ
Dict V = List (String × V)

module _ {ℓ} {V : Type ℓ} where
  -- `v, ok := m[k]`
  unfoldable pub get : String → Dict V → Option V
  get k [] = none
  get k ((j, v) ∷ m) = if j == k then some v else get k m

  -- `m[k] = v`
  unfoldable pub put : String → V → Dict V → Dict V
  put k v [] = (k, v) ∷ []
  put k v ((j, w) ∷ m) = if j == k then (k, v) ∷ m else (j, w) ∷ put k v m

  -- `delete(m, k)`
  unfoldable pub remove : String → Dict V → Dict V
  remove k [] = []
  remove k ((j, v) ∷ m) = let rest = remove k m in if j == k then rest else (j, v) ∷ rest

  -- `for k, v := range entries { m[k] = v }`
  unfoldable pub put_all : List (String × V) → Dict V → Dict V
  put_all [] m = m
  put_all ((k, v) ∷ entries) m = put_all entries (put k v m)

  abbrev pub keys : Dict V → List String
  keys [] = []
  keys ((k, v) ∷ m) = k ∷ keys m

abbrev pub values {ℓ} : {V : Type ℓ} → Dict V → List V
values [] = []
values ((k, v) ∷ m) = v ∷ values m
