-- ===== src/Prelude/Text.antt =====
-- Facts on whole texts that split a proof on a comparison.
use mathlib.Core.Path.{◌≡◌}
use mathlib.Core.Bool.{false}
use mathlib.Core.Logic.{◌≢◌}
use Prim.Native.String
use Prim.Native.String.{String}
use mathlib.Core.List.{List, [], ◌∷◌}
use native.Mathlib.Omega.{arith}
use text.Mathlib.Text.{◌==◌}
use text.Mathlib.TextEquality.{eq_iff}

-- A comparison that fails is an inequality, and the other way round.
pub ne_of_eq_false : {s t : String} → (s == t) ≡ false → s ≢ t
ne_of_eq_false {s} {t} h e = ground (arith, eq_iff s t)

pub eq_false_of_ne : {s t : String} → s ≢ t → (s == t) ≡ false
eq_false_of_ne {s} {t} h = ground (arith, eq_iff s t)

-- The pieces of a text, one behind the other.
abbrev pub concat : List String → String
concat [] = ""
concat (s ∷ texts) = String.◌++◌ s (concat texts)
