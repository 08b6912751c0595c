-- ===== src/Reset/Grouped.antt =====
-- Which file holds the method of which struct.
use mathlib.Core.List.{append_assoc, append-nil}
use mathlib.Core.Path.{subst}
use go_metrics_stas.Prelude.{
  String, ◌≡◌, refl, sym, ap, ◌∙◌, Option, none, some, Bool, true, false, List, [], ◌∷◌, ◌++◌, ◌==◌,
  if◌then◌else◌, arith, eq_iff, Bool-cases, inl, inr, All, All-map, each-All,
}
use go_metrics_stas.Dict.{Dict, get, keys}
use go_metrics_stas.Dict.Laws.{get-put, get-eq-none, HasDistinctKeys}
use go_metrics_stas.Reset.{StructInfo, Types}
use go_metrics_stas.Reset.Print.{generated_file}
use go_metrics_stas.Reset.Walk
use go_metrics_stas.Reset.Contents.{contents, generated_file-eq-contents}
use go_metrics_stas.Reset.Folders.{
  structs_by_dir-All, write_all-get, structs_by_dir-HasDistinctKeys,
}
use go_metrics_stas.Reset.Marked.{
  keep, keep-append, only_if, marked_in_files, all_marked, find_in_files-marked,
}

module _ (types : Types) (lib : Walk.Library) where
  -- The structs of one folder.
  abbrev pub in_dir : String → List StructInfo → List StructInfo
  in_dir d structs = keep (λ s. lib.dir s.file_path == d) structs

  by_dir-add_struct :
      (d : String) (s : StructInfo) (by_dir : Dict (List StructInfo))
      → Walk.or_none (get d (Walk.add_struct types lib s by_dir))
        ≡ Walk.or_none (get d by_dir) ++ in_dir d (s ∷ [])
  unfolding Walk.add_struct
  by_dir-add_struct d s by_dir = elim (Bool-cases (lib.dir s.file_path == d)) [
    | inl e ↦
        rw
          (
            get-put (lib.dir s.file_path) d
                (Walk.or_none (get (lib.dir s.file_path) by_dir) ++ s ∷ []) by_dir,
            e,
            (eq_iff (lib.dir s.file_path) d).0 e,
          )
          refl
    | inr e ↦
        rw
          (
            get-put (lib.dir s.file_path) d
                (Walk.or_none (get (lib.dir s.file_path) by_dir) ++ s ∷ []) by_dir,
            e,
          )
          (sym (append-nil (Walk.or_none (get d by_dir))))
  ]

  in_dir-cons :
      (d : String) (s : StructInfo) (structs : List StructInfo)
      → in_dir d (s ∷ structs) ≡ in_dir d (s ∷ []) ++ in_dir d structs
  in_dir-cons d s structs = keep-append (λ x. lib.dir x.file_path == d) (s ∷ []) structs

  by_dir-add_structs :
      (d : String) (structs : List StructInfo) (by_dir : Dict (List StructInfo))
      → Walk.or_none (get d (Walk.add_structs types lib structs by_dir))
        ≡ Walk.or_none (get d by_dir) ++ in_dir d structs
  unfolding Walk.add_structs
  by_dir-add_structs d [] by_dir = sym (append-nil (Walk.or_none (get d by_dir)))
  by_dir-add_structs d (s ∷ structs) by_dir =
      by_dir-add_structs d structs (Walk.add_struct types lib s by_dir)
      ∙ ap (λ l. l ++ in_dir d structs) (by_dir-add_struct d s by_dir)
      ∙ append_assoc (Walk.or_none (get d by_dir)) (in_dir d (s ∷ [])) (in_dir d structs)
      ∙ ap (λ l. Walk.or_none (get d by_dir) ++ l) (sym (in_dir-cons d s structs))

  by_dir-add_package :
      (d : String) (b : Bool) (structs : List StructInfo) (by_dir : Dict (List StructInfo))
      → Walk.or_none (get d (Walk.add_package types lib b structs by_dir))
        ≡ Walk.or_none (get d by_dir) ++ in_dir d (only_if b structs)
  unfolding Walk.add_package
  by_dir-add_package d false structs by_dir = sym (append-nil (Walk.or_none (get d by_dir)))
  by_dir-add_package d true structs by_dir = by_dir-add_structs d structs by_dir

  by_dir-structs_by_dir :
      (d : String) (pkgs : List (Walk.Package types)) (by_dir : Dict (List StructInfo))
      → Walk.or_none (get d (Walk.structs_by_dir types lib pkgs by_dir))
        ≡ Walk.or_none (get d by_dir) ++ in_dir d (all_marked types lib pkgs)
  unfolding Walk.structs_by_dir Walk.find_marked_structs
  by_dir-structs_by_dir d [] by_dir = sym (append-nil (Walk.or_none (get d by_dir)))
  by_dir-structs_by_dir d (pkg ∷ pkgs) by_dir =
      let here = marked_in_files types lib pkg pkg.compiled_go_files pkg.syntax in
      let some_here = only_if pkg.has_types_info here in
      rw (find_in_files-marked types lib pkg pkg.compiled_go_files pkg.syntax) (
        by_dir-structs_by_dir d pkgs (Walk.add_package types lib pkg.has_types_info here by_dir)
        ∙ ap (λ l. l ++ in_dir d (all_marked types lib pkgs))
            (by_dir-add_package d pkg.has_types_info here by_dir)
        ∙ append_assoc (Walk.or_none (get d by_dir)) (in_dir d some_here)
            (in_dir d (all_marked types lib pkgs))
        ∙ ap (λ l. Walk.or_none (get d by_dir) ++ l)
            (sym
              (keep-append (λ x. lib.dir x.file_path == d) some_here (all_marked types lib pkgs))))

  -- What a file holds after a text was written to it, if there is one.
  abbrev pub written : String → Option String → Option String → Option String
  written path none old = old
  written path (some text) old =
      if lib.write_fails path
      then old
      else some (Walk.formatted_or types lib (lib.format_source text) text)

  written-write_text :
      (e d : String) (o : Option String) (files : Dict String)
      → (lib.generated_path e == lib.generated_path d) ≡ (e == d)
      → get (lib.generated_path d) (Walk.write_text types lib e o files) ≡ (
          if e == d
          then written (lib.generated_path d) o (get (lib.generated_path d) files)
          else get (lib.generated_path d) files)
  unfolding Walk.write_text
  written-write_text e d none files h = ground arith
  written-write_text e d (some text) files h = ground (
    arith,
    get-put (lib.generated_path e) (lib.generated_path d)
        (Walk.formatted_or types lib (lib.format_source text) text) files,
    eq_iff e d,
    h,
  )

  written-write_all :
      (d : String) (by_dir : Dict (List StructInfo)) (files : Dict String)
      → All (λ e. (lib.generated_path e == lib.generated_path d) ≡ (e == d)) (keys by_dir)
      → HasDistinctKeys by_dir
      → get (lib.generated_path d) (Walk.write_all types lib by_dir files)
        ≡ written
            (lib.generated_path d)
            (generated_file (Walk.or_none (get d by_dir)))
            (get (lib.generated_path d) files)
  unfolding Walk.write_all Walk.write_generated_file get
  written-write_all d [] files p h = unfold generated_file in refl
  written-write_all d ((e, structs) ∷ by_dir) files p (a, h) = elim (Bool-cases (e == d)) [
    | inl same ↦
        let gone : get d by_dir ≡ none =
          subst (λ k. get k by_dir ≡ none) ((eq_iff e d).0 same) (get-eq-none e by_dir a) in
        written-write_all d by_dir _ p.1 h
        ∙ rw (gone, written-write_text e d (generated_file structs) files p.0, same)
            (unfold generated_file in refl)
    | inr other ↦
        written-write_all d by_dir _ p.1 h
        ∙ rw (written-write_text e d (generated_file structs) files p.0, other) refl
  ]

  -- A folder that path/filepath gives for a path.
  abbrev pub IsDir : String → Type 0
  IsDir d = (path : String) × (d ≡ lib.dir path)

  same-generated_path :
      ((a b : String)
        → lib.generated_path (lib.dir a) ≡ lib.generated_path (lib.dir b)
        → lib.dir a ≡ lib.dir b)
      → (path e : String) → IsDir e
      → (lib.generated_path e == lib.generated_path (lib.dir path)) ≡ (e == lib.dir path)
  same-generated_path inj path e (a, q) =
      let f = inj a path in
      rw q (
        ground (
          arith,
          eq_iff (lib.dir a) (lib.dir path),
          eq_iff (lib.generated_path (lib.dir a)) (lib.generated_path (lib.dir path)),
          f,
        ))

  -- The file that the generator makes for the folder of any path holds, after a run, the package clause
  -- and the methods Reset of just the marked structs of that folder's files, in the order of the walk; it
  -- stays as it was where there are none, or where it cannot be written. A struct is marked that a type
  -- declaration of a package with type information declares, with "generate:reset" in a comment at it. Any
  -- file that is not the one of the folder of a marked struct stays as it was. Different folders that
  -- filepath.Dir gives are taken to have different files.
  pub main_lem :
      (pkgs : List (Walk.Package types)) (files : Dict String) (path file : String)
      → ((a b : String)
          → lib.generated_path (lib.dir a) ≡ lib.generated_path (lib.dir b)
          → lib.dir a ≡ lib.dir b)
      → All
          (λ (s : StructInfo). ¬ (file ≡ lib.generated_path (lib.dir s.file_path)))
          (all_marked types lib pkgs)
      → (get (lib.generated_path (lib.dir path)) (Walk.main types lib pkgs files)
          ≡ written
              (lib.generated_path (lib.dir path))
              (contents (in_dir (lib.dir path) (all_marked types lib pkgs)))
              (get (lib.generated_path (lib.dir path)) files))
        × (get file (Walk.main types lib pkgs files) ≡ get file files)
  unfolding Walk.main
  main_lem pkgs files path file inj other =
      let d = lib.dir path in
      let by_dir = Walk.structs_by_dir types lib pkgs [] in
      let dirs : All IsDir (keys by_dir) =
        structs_by_dir-All types lib IsDir pkgs []
          (each-All (λ (s : StructInfo). IsDir (lib.dir s.file_path)) (λ s. (s.file_path, refl))
            (all_marked types lib pkgs))
          tt in
      let marked = all_marked types lib pkgs in
      let found : Walk.or_none (get d by_dir) ≡ in_dir d marked =
        by_dir-structs_by_dir d pkgs [] ∙ unfold get in refl in
      (
        written-write_all d by_dir files
              (All-map IsDir _ (same-generated_path inj path) (keys by_dir) dirs)
              (structs_by_dir-HasDistinctKeys types lib pkgs [] tt)
            ∙ ap (λ o. written (lib.generated_path d) o (get (lib.generated_path d) files))
                (ap generated_file found ∙ generated_file-eq-contents (in_dir d marked)),
        write_all-get types lib file by_dir files
            (structs_by_dir-All types lib (λ e. ¬ (file ≡ lib.generated_path e)) pkgs [] other tt),
      )
