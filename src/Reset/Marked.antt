-- ===== src/Reset/Marked.antt =====
-- Which structs the walk finds: those that a description without loops names.
use mathlib.Core.List.{map-append}
use go_metrics_stas.Prelude.{
  String, ◌≡◌, refl, sym, Option, none, some, Bool, true, false, ◌&&◌, ◌||◌, List, [], ◌∷◌, ◌++◌,
  map, if◌then◌else◌, arith, Bool-cases, inl, inr,
}
use go_metrics_stas.Reset.{StructInfo, Types}
use go_metrics_stas.Reset.Print.{has_generate_reset_comment, marked_group, marks}
use go_metrics_stas.Reset.Walk

abbrev pub keep {ℓ} : {A : Type ℓ} → (A → Bool) → List A → List A
keep p [] = []
keep p (x ∷ xs) = let rest = keep p xs in if p x then x ∷ rest else rest

pub keep-append {ℓ} :
    {A : Type ℓ} (p : A → Bool) (xs ys : List A) → keep p (xs ++ ys) ≡ keep p xs ++ keep p ys
keep-append p [] ys = refl
keep-append p (x ∷ xs) ys = ground (arith, keep-append p xs ys)

abbrev pub comments : Option (List String) → List String
comments none = []
comments (some group) = group

-- The type declarations of a file, each with the comment above all of its declaration.
abbrev pub specs_of :
    Option (List String) → List Walk.Spec → List (Option (List String) × Walk.TypeSpec)
specs_of doc [] = []
specs_of doc (Walk.other_spec ∷ specs) = specs_of doc specs
specs_of doc (Walk.type_spec t ∷ specs) = (doc, t) ∷ specs_of doc specs

abbrev pub only_if : Bool → List StructInfo → List StructInfo
only_if true structs = structs
only_if false structs = []

abbrev pub types_of : List Walk.Decl → List (Option (List String) × Walk.TypeSpec)
types_of [] = []
types_of (Walk.other_decl ∷ decls) = types_of decls
types_of (Walk.gen_decl is_type doc specs ∷ decls) =
    let rest = types_of decls in if is_type then specs_of doc specs ++ rest else rest

module _ (types : Types) (lib : Walk.Library) where
  -- A struct with one of its comments marked.
  abbrev pub is_marked : Option (List String) × Walk.TypeSpec → Bool
  is_marked (doc, t) =
      t.is_struct && marks lib.contains (comments doc ++ comments t.doc ++ comments t.comment)

  abbrev pub marked_in_file : Walk.Package types → String → List Walk.Decl → List StructInfo
  marked_in_file pkg path file =
      map (λ s. Walk.extract_struct_info types lib pkg s.1.name path)
        (keep is_marked (types_of file))

  abbrev pub marked_in_files :
      Walk.Package types → List String → List (List Walk.Decl) → List StructInfo
  marked_in_files pkg paths [] = []
  marked_in_files pkg paths (file ∷ files) =
      marked_in_file pkg (Walk.path_or_empty paths) file
      ++ marked_in_files pkg (Walk.later paths) files

  -- The marked structs of the packages that have type information, in order.
  abbrev pub all_marked : List (Walk.Package types) → List StructInfo
  all_marked [] = []
  all_marked (pkg ∷ pkgs) =
      only_if pkg.has_types_info (marked_in_files pkg pkg.compiled_go_files pkg.syntax)
      ++ all_marked pkgs

  marks-append :
      (cs ds : List String)
      → marks lib.contains (cs ++ ds) ≡ (marks lib.contains cs || marks lib.contains ds)
  marks-append [] ds = refl
  marks-append (c ∷ cs) ds = ground (arith, marks-append cs ds)

  marked_group-comments :
      (o : Option (List String)) → marked_group lib.contains o ≡ marks lib.contains (comments o)
  marked_group-comments none = refl
  marked_group-comments (some group) = refl

  has_generate_reset_comment-marks :
      (a b c : Option (List String))
      → has_generate_reset_comment lib.contains a b c
        ≡ marks lib.contains (comments a ++ comments b ++ comments c)
  unfolding has_generate_reset_comment
  has_generate_reset_comment-marks a b c = ground (
    arith,
    marked_group-comments a,
    marked_group-comments b,
    marked_group-comments c,
    marks-append (comments a ++ comments b) (comments c),
    marks-append (comments a) (comments b),
  )

  module _ (pkg : Walk.Package types) where
    find_in_specs-specs_of :
        (path : String) (doc : Option (List String)) (specs : List Walk.Spec)
        → Walk.find_in_specs types lib pkg path doc specs
          ≡ map
              (λ s. Walk.extract_struct_info types lib pkg s.1.name path)
              (keep is_marked (specs_of doc specs))
    unfolding Walk.find_in_specs
    find_in_specs-specs_of path doc [] = refl
    find_in_specs-specs_of path doc (Walk.other_spec ∷ specs) =
        find_in_specs-specs_of path doc specs
    find_in_specs-specs_of path doc (Walk.type_spec t ∷ specs) =
        rw
          (
            find_in_specs-specs_of path doc specs,
            has_generate_reset_comment-marks doc t.doc t.comment,
          )
          (elim (Bool-cases t.is_struct) [
            | inr e ↦ rw e refl
            | inl e ↦
                elim (Bool-cases
                  (marks lib.contains (comments doc ++ comments t.doc ++ comments t.comment))) [
                    | inl f ↦ rw (e, f) refl
                    | inr f ↦ rw (e, f) refl
                  ]
          ])

    find_in_decls-types_of :
        (path : String) (decls : List Walk.Decl)
        → Walk.find_in_decls types lib pkg path decls ≡ marked_in_file pkg path decls
    unfolding Walk.find_in_decls
    find_in_decls-types_of path [] = refl
    find_in_decls-types_of path (Walk.other_decl ∷ decls) = find_in_decls-types_of path decls
    find_in_decls-types_of path (Walk.gen_decl false doc specs ∷ decls) =
        find_in_decls-types_of path decls
    find_in_decls-types_of path (Walk.gen_decl true doc specs ∷ decls) =
        let info = λ (s : Option (List String) × Walk.TypeSpec).
          Walk.extract_struct_info types lib pkg s.1.name path in
        rw
          (
            find_in_decls-types_of path decls,
            find_in_specs-specs_of path doc specs,
            keep-append is_marked (specs_of doc specs) (types_of decls),
          )
          (sym (
            map-append info (keep is_marked (specs_of doc specs))
              (keep is_marked (types_of decls))))

    pub find_in_files-marked :
        (paths : List String) (files : List (List Walk.Decl))
        → Walk.find_in_files types lib pkg paths files ≡ marked_in_files pkg paths files
    unfolding Walk.find_in_files
    find_in_files-marked paths [] = refl
    find_in_files-marked paths (file ∷ files) =
        rw
          (
            find_in_decls-types_of (Walk.path_or_empty paths) file,
            find_in_files-marked (Walk.later paths) files,
          )
          refl
