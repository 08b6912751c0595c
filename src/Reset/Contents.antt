-- ===== src/Reset/Contents.antt =====
-- What a generated file holds.
use Prim.Native.String
use text.Mathlib.TextLemmas.{append-nil}
use go_metrics_stas.Prelude.Text.{concat}
use go_metrics_stas.Prelude.{String, ◌≡◌, refl, ap, ◌∙◌, Option, none, some, List, [], ◌∷◌, map}
use go_metrics_stas.Reset.{StructInfo}
use go_metrics_stas.Reset.Print.{generate_reset_code, generate_more, generated_file}

-- The texts, with another one between any two of them.
abbrev pub separated : String → List String → List String
separated sep [] = []
separated sep (t ∷ []) = t ∷ []
separated sep (t ∷ u ∷ texts) = t ∷ sep ∷ separated sep (u ∷ texts)

-- The package clause of the first struct, and one method for each struct, with a line between two.
abbrev pub contents : List StructInfo → Option String
contents [] = none
contents (s ∷ structs) = some (
    concat (
      "// Code generated by cmd/reset; DO NOT EDIT.\n\n"
      ∷ "package "
      ∷ s.package_name
      ∷ "\n\n"
      ∷ separated "\n" (map generate_reset_code (s ∷ structs))))

generate_more-separated :
    (t : String) (structs : List StructInfo)
    → concat (t ∷ generate_more structs ∷ [])
      ≡ concat (separated "\n" (t ∷ map generate_reset_code structs))
generate_more-separated t [] = refl
generate_more-separated t (s ∷ structs) = ap (String.◌++◌ t) (
    append-nil (generate_more (s ∷ structs))
    ∙ ap (String.◌++◌ "\n") (generate_more-separated (generate_reset_code s) structs))

pub generated_file-eq-contents :
    (structs : List StructInfo) → generated_file structs ≡ contents structs
unfolding generated_file
generated_file-eq-contents [] = refl
generated_file-eq-contents (s ∷ structs) =
    ap
      (λ t. some (
        String.◌++◌ "// Code generated by cmd/reset; DO NOT EDIT.\n\n"
          (String.◌++◌ "package " (String.◌++◌ s.package_name (String.◌++◌ "\n\n" t)))))
      (generate_more-separated (generate_reset_code s) structs)
