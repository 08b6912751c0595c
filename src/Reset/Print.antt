-- ===== src/Reset/Print.antt =====
-- cmd/reset/main.go: the text of the generated file.
use Prim.Native.String
use go_metrics_stas.Prelude.Text.{concat}
use go_metrics_stas.Prelude.{
  String, Option, none, some, Bool, true, false, ◌||◌, List, [], ◌∷◌, if◌then◌else◌,
}
use go_metrics_stas.Reset.{
  FieldInfo, StructInfo, Statement, zero_number, set_false, empty_text, cut, clear, composite,
  call_reset, set_nil, leave_chan, leave_unknown, unless_nil, nothing, field_statement,
}

-- The text of a statement on the target of the pointer `ref`.
abbrev pub print_target : String → Statement → String
print_target ref zero_number = concat ("\t\t*" ∷ ref ∷ " = 0\n" ∷ [])
print_target ref set_false = concat ("\t\t*" ∷ ref ∷ " = false\n" ∷ [])
print_target ref empty_text = concat ("\t\t*" ∷ ref ∷ " = \"\"\n" ∷ [])
print_target ref cut = concat ("\t\t*" ∷ ref ∷ " = (*" ∷ ref ∷ ")[:0]\n" ∷ [])
print_target ref clear = concat ("\t\tclear(*" ∷ ref ∷ ")\n" ∷ [])
print_target ref (composite t) = concat ("\t\t*" ∷ ref ∷ " = " ∷ t ∷ "{}\n" ∷ [])
print_target ref call_reset = concat ("\t\t" ∷ ref ∷ ".Reset()\n" ∷ [])
print_target ref set_nil = concat ("\t\t*" ∷ ref ∷ " = nil\n" ∷ [])
print_target ref leave_chan = concat ("\t\t// *" ∷ ref ∷ " is a channel and is not reset\n" ∷ [])
print_target ref s = concat ("\t\t// *" ∷ ref ∷ " has unknown type and is not reset\n" ∷ [])

-- The text of a statement on the field `ref`.
abbrev pub print_statement : String → Statement → String
print_statement ref zero_number = concat ("\t" ∷ ref ∷ " = 0\n" ∷ [])
print_statement ref set_false = concat ("\t" ∷ ref ∷ " = false\n" ∷ [])
print_statement ref empty_text = concat ("\t" ∷ ref ∷ " = \"\"\n" ∷ [])
print_statement ref cut = concat ("\t" ∷ ref ∷ " = " ∷ ref ∷ "[:0]\n" ∷ [])
print_statement ref clear = concat ("\tclear(" ∷ ref ∷ ")\n" ∷ [])
print_statement ref (composite t) = concat ("\t" ∷ ref ∷ " = " ∷ t ∷ "{}\n" ∷ [])
print_statement ref call_reset = concat ("\t" ∷ ref ∷ ".Reset()\n" ∷ [])
print_statement ref set_nil = concat ("\t" ∷ ref ∷ " = nil\n" ∷ [])
print_statement ref leave_chan = concat ("\t// " ∷ ref ∷ " is a channel and is not reset\n" ∷ [])
print_statement ref (unless_nil s) =
    concat ("\tif " ∷ ref ∷ " != nil {\n" ∷ print_target ref s ∷ "\t}\n" ∷ [])
print_statement ref leave_unknown =
    concat ("\t// " ∷ ref ∷ " has unknown type and is not reset\n" ∷ [])
print_statement ref nothing = ""

unfoldable pub generate_field_reset : String → FieldInfo → String
unfolding field_statement
generate_field_reset recv f =
    print_statement (concat (recv ∷ "." ∷ f.name ∷ [])) (field_statement f)

unfoldable pub generate_fields : String → List FieldInfo → String
unfolding generate_field_reset
generate_fields recv [] = ""
generate_fields recv (f ∷ fields) =
    String.◌++◌ (generate_field_reset recv f) (generate_fields recv fields)

unfoldable pub generate_reset_code : StructInfo → String
unfolding generate_fields
generate_reset_code info = concat (
    "// Reset resets all fields of "
    ∷ info.name
    ∷ " to their zero values.\n"
    ∷ "func ("
    ∷ info.recv_name
    ∷ " *"
    ∷ info.name
    ∷ ") Reset() {\n"
    ∷ "\tif "
    ∷ info.recv_name
    ∷ " == nil {\n"
    ∷ "\t\treturn\n"
    ∷ "\t}\n"
    ∷ generate_fields info.recv_name info.fields
    ∷ "}\n"
    ∷ [])

abbrev pub generate_more : List StructInfo → String
generate_more [] = ""
generate_more (s ∷ structs) = concat ("\n" ∷ generate_reset_code s ∷ generate_more structs ∷ [])

-- What `writeGeneratedFile` formats and writes; nothing if there is no struct.
unfoldable pub generated_file : List StructInfo → Option String
unfolding generate_reset_code
generated_file [] = none
generated_file (s ∷ structs) = some (
    concat (
      "// Code generated by cmd/reset; DO NOT EDIT.\n\n"
      ∷ "package "
      ∷ s.package_name
      ∷ "\n\n"
      ∷ generate_reset_code s
      ∷ generate_more structs
      ∷ []))

-- `strings.Contains(comment.Text, "generate:reset")` in a group of comments, which may be missing.
abbrev pub marks : (String → String → Bool) → List String → Bool
marks contains [] = false
marks contains (c ∷ comments) =
    if contains c "generate:reset" then true else marks contains comments

abbrev pub marked_group : (String → String → Bool) → Option (List String) → Bool
marked_group contains none = false
marked_group contains (some comments) = marks contains comments

-- The comments on the declaration, and those above and behind the type.
unfoldable pub has_generate_reset_comment :
    (String → String → Bool)
    → Option (List String)
    → Option (List String)
    → Option (List String)
    → Bool
has_generate_reset_comment contains decl_doc spec_doc spec_comment =
    marked_group contains decl_doc
    || marked_group contains spec_doc
    || marked_group contains spec_comment
