-- ===== src/Reset/Tests.antt =====
-- A struct with a number, a pointer to a text and a struct that has a method Reset.
use go_metrics_stas.Prelude.{
  ℕ, String, ◌≡◌, refl, Option, none, some, Bool, true, false, List, [], ◌∷◌, ◌==◌, eqb, map,
  if◌then◌else◌,
}
use go_metrics_stas.Reset.{
  basic, basic_int, basic_string, struct_type, pointer_type, interface_type, Underlying, Types,
  FieldInfo, StructInfo, analyze_field,
}
use go_metrics_stas.Reset.Print.{generate_reset_code, has_generate_reset_comment}
use go_metrics_stas.Prelude.Text.{ne_of_eq_false}
use go_metrics_stas.Dict.{get}
use go_metrics_stas.Reset.Walk
use go_metrics_stas.Reset.Marked.{all_marked}
use go_metrics_stas.Reset.Contents.{contents}
use go_metrics_stas.Reset.Grouped.{in_dir, written, main_lem}

-- 0 is int, 1 string, 2 *string, 3 a struct, 4 a type parameter.
abbrev underlying : ℕ → Underlying
underlying n =
    if eqb n 0
    then basic basic_int
    else if eqb n 1
    then basic basic_string
    else if eqb n 2
    then pointer_type
    else if eqb n 4
    then interface_type
    else struct_type

abbrev types : Types
types = record {
  T = ℕ;
  underlying = underlying;
  elem = λ n. if eqb n 2 then some 1 else none;
  is_type_param = λ n. eqb n 4;
  new_pointer = λ n. n;
  methods = λ n. if eqb n 3 then record { name = "Reset"; params = 0; results = 0 } ∷ [] else [];
  type_string = λ n. "T";
}

abbrev field : String → ℕ → FieldInfo
field name t = analyze_field types name t

abbrev point : StructInfo
point = record {
  name = "Point";
  recv_name = "p";
  fields = field "x" 0 ∷ field "label" 2 ∷ field "inner" 3 ∷ [];
  package_name = "geo";
  file_path = "geo/point.go";
}

printed :
    generate_reset_code point
    ≡ "// Reset resets all fields of Point to their zero values.\nfunc (p *Point) Reset() {\n\tif p == nil {\n\t\treturn\n\t}\n\tp.x = 0\n\tif p.label != nil {\n\t\t*p.label = \"\"\n\t}\n\tp.inner.Reset()\n}\n"
unfolding generate_reset_code analyze_field
printed = refl

abbrev value_field : String
value_field = "value"

-- A package of two files in one folder: a marked struct and an unmarked one, a marked type that is no
-- struct, and a struct with a mark on its whole declaration.
abbrev mark : Option (List String)
mark = some ("// generate:reset" ∷ [])

abbrev a_type : String → Bool → Option (List String) → Walk.Spec
a_type name is_struct doc =
    Walk.type_spec (record { name = name; is_struct = is_struct; doc = doc; comment = none })

abbrev geo : Walk.Package types
geo = record {
  name = "geo";
  syntax =
      (Walk.gen_decl true none
          (a_type "Point" true mark ∷ a_type "Line" true none ∷ a_type "Id" false mark ∷ [])
        ∷ [])
      ∷ (Walk.gen_decl true mark (a_type "Grid" true none ∷ []) ∷ Walk.other_decl ∷ [])
      ∷ [];
  compiled_go_files = "geo" ∷ "geo" ∷ [];
  has_types_info = true;
  lookup = λ name.
      if name == "Point"
      then Walk.struct_of (("x", 0) ∷ ("label", 2) ∷ ("inner", 3) ∷ [])
      else Walk.missing;
}

-- A path is its folder here, and a text is well formed as it is.
abbrev library : Walk.Library
library = record {
  contains = λ text part. text == "// generate:reset";
  receiver = λ name. "p";
  dir = λ path. path;
  generated_path = λ dir. dir;
  format_source = λ text. none;
  write_fails = λ path. false;
}

finds_two :
    map (λ (s : StructInfo). s.name) (Walk.find_marked_structs types library geo)
    ≡ "Point" ∷ "Grid" ∷ []
unfolding Walk.find_marked_structs has_generate_reset_comment Walk.extract_struct_info
finds_two = refl

main_lem_example :
    (get "geo" (Walk.main types library (geo ∷ []) [])
      ≡ written types library "geo"
          (contents (in_dir types library "geo" (all_marked types library (geo ∷ []))))
          (get "geo" []))
    × (get "other" (Walk.main types library (geo ∷ []) []) ≡ get "other" [])
unfolding Walk.extract_struct_info
main_lem_example =
    main_lem types library (geo ∷ []) [] "geo" "other" (λ a b h. h)
      ((λ e. ne_of_eq_false refl e), ((λ e. ne_of_eq_false refl e), tt))
