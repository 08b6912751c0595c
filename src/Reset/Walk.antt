-- ===== src/Reset/Walk.antt =====
-- cmd/reset/main.go: the walk over the packages that are loaded, and the files that are written. What
-- go/packages and go/ast give is data; strings, path/filepath and go/format are parameters.
use go_metrics_stas.Prelude.{
  String, Option, none, some, Bool, true, false, not, List, [], ◌∷◌, ◌++◌, if◌then◌else◌,
}
use go_metrics_stas.Dict.{Dict, get, put}
use go_metrics_stas.Reset.{FieldInfo, StructInfo, Types, analyze_field}
use go_metrics_stas.Reset.Print.{has_generate_reset_comment, generated_file}

-- `ast.TypeSpec`: its name, whether its type is an `ast.StructType`, and the comments above and behind.
pub record TypeSpec : Type 0 where
  pub name : String
  pub is_struct : Bool
  pub doc : Option (List String)
  pub comment : Option (List String)

pub data Spec : Type 0 where
  type_spec : TypeSpec → Spec
  other_spec : Spec

-- `ast.GenDecl`: whether its token is `type`, the comment above, and its specs; or another declaration.
pub data Decl : Type 0 where
  gen_decl : Bool → Option (List String) → List Spec → Decl
  other_decl : Decl

-- What a name stands for in the scope of a package, with the fields of a struct.
pub data Found (T : Type 0) : Type 0 where
  missing not_named not_struct : Found T
  struct_of : List (String × T) → Found T

pub record Package (types : Types) : Type 0 where
  pub name : String
  pub syntax : List (List Decl)
  pub compiled_go_files : List String
  pub has_types_info : Bool
  pub lookup : String → Found types.T

-- `strings.Contains`, `strings.ToLower(name[:1])`, `filepath.Dir`, the path of reset.gen.go in a folder,
-- `format.Source`, and whether a file cannot be written.
pub record Library : Type 0 where
  pub contains : String → String → Bool
  pub receiver : String → String
  pub dir : String → String
  pub generated_path : String → String
  pub format_source : String → Option String
  pub write_fails : String → Bool

abbrev pub path_or_empty : List String → String
path_or_empty [] = ""
path_or_empty (path ∷ paths) = path

abbrev pub later : List String → List String
later [] = []
later (path ∷ paths) = paths

abbrev pub or_none : Option (List StructInfo) → List StructInfo
or_none none = []
or_none (some structs) = structs

module _ (types : Types) (lib : Library) where
  unfoldable pub analyze_fields : List (String × types.T) → List FieldInfo
  analyze_fields [] = []
  analyze_fields ((name, t) ∷ fields) = analyze_field types name t ∷ analyze_fields fields

  -- The fields are none where one of the three early returns is taken.
  unfoldable pub fields_of : Found types.T → List FieldInfo
  unfolding analyze_fields
  fields_of (struct_of fields) = analyze_fields fields
  fields_of missing = []
  fields_of not_named = []
  fields_of not_struct = []

  unfoldable pub extract_struct_info : Package types → String → String → StructInfo
  unfolding fields_of
  extract_struct_info pkg name path = record {
    name = name;
    recv_name = lib.receiver name;
    fields = fields_of (pkg.lookup name);
    package_name = pkg.name;
    file_path = path;
  }

  -- The three loops of `findMarkedStructs`, from the innermost.
  unfoldable pub find_in_specs :
      Package types → String → Option (List String) → List Spec → List StructInfo
  find_in_specs pkg path doc [] = []
  find_in_specs pkg path doc (other_spec ∷ specs) = find_in_specs pkg path doc specs
  find_in_specs pkg path doc (type_spec t ∷ specs) =
      let rest = find_in_specs pkg path doc specs in
      if not t.is_struct
      then rest
      else if has_generate_reset_comment lib.contains doc t.doc t.comment
      then extract_struct_info pkg t.name path ∷ rest
      else rest

  unfoldable pub find_in_decls : Package types → String → List Decl → List StructInfo
  unfolding find_in_specs
  find_in_decls pkg path [] = []
  find_in_decls pkg path (other_decl ∷ decls) = find_in_decls pkg path decls
  find_in_decls pkg path (gen_decl is_type doc specs ∷ decls) =
      let rest = find_in_decls pkg path decls in
      if not is_type then rest else find_in_specs pkg path doc specs ++ rest

  -- The path of a file is the one at its index, if there is one.
  unfoldable pub find_in_files : Package types → List String → List (List Decl) → List StructInfo
  unfolding find_in_decls
  find_in_files pkg paths [] = []
  find_in_files pkg paths (file ∷ files) =
      find_in_decls pkg (path_or_empty paths) file ++ find_in_files pkg (later paths) files

  unfoldable pub find_marked_structs : Package types → List StructInfo
  unfolding find_in_files
  find_marked_structs pkg = find_in_files pkg pkg.compiled_go_files pkg.syntax

  -- `structsByDir[dir] = append(structsByDir[dir], s)`
  unfoldable pub add_struct : StructInfo → Dict (List StructInfo) → Dict (List StructInfo)
  add_struct s by_dir =
      put (lib.dir s.file_path) (or_none (get (lib.dir s.file_path) by_dir) ++ s ∷ []) by_dir

  unfoldable pub add_structs : List StructInfo → Dict (List StructInfo) → Dict (List StructInfo)
  unfolding add_struct
  add_structs [] by_dir = by_dir
  add_structs (s ∷ structs) by_dir = add_structs structs (add_struct s by_dir)

  -- One round of the loop over the packages, which skips those without type information.
  unfoldable pub add_package :
      Bool → List StructInfo → Dict (List StructInfo) → Dict (List StructInfo)
  unfolding add_structs
  add_package false structs by_dir = by_dir
  add_package true structs by_dir = add_structs structs by_dir

  unfoldable pub structs_by_dir :
      List (Package types) → Dict (List StructInfo) → Dict (List StructInfo)
  unfolding add_package find_marked_structs
  structs_by_dir [] by_dir = by_dir
  structs_by_dir (pkg ∷ pkgs) by_dir =
      structs_by_dir pkgs (add_package pkg.has_types_info (find_marked_structs pkg) by_dir)

  -- What is written where a text may not be formatted.
  abbrev pub formatted_or : Option String → String → String
  formatted_or none text = text
  formatted_or (some formatted) text = formatted

  unfoldable pub write_text : String → Option String → Dict String → Dict String
  write_text dir none files = files
  write_text dir (some text) files =
      if lib.write_fails (lib.generated_path dir)
      then files
      else put (lib.generated_path dir) (formatted_or (lib.format_source text) text) files

  unfoldable pub write_generated_file : String → List StructInfo → Dict String → Dict String
  unfolding write_text
  write_generated_file dir structs files = write_text dir (generated_file structs) files

  -- The last loop of `main`; an error is logged and the loop goes on.
  unfoldable pub write_all : Dict (List StructInfo) → Dict String → Dict String
  unfolding write_generated_file
  write_all [] files = files
  write_all ((dir, structs) ∷ by_dir) files =
      write_all by_dir (write_generated_file dir structs files)

  unfoldable pub main : List (Package types) → Dict String → Dict String
  unfolding structs_by_dir write_all
  main pkgs files = write_all (structs_by_dir pkgs []) files
