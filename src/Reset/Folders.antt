-- ===== src/Reset/Folders.antt =====
-- The folders that the walk groups structs by, and the files that are written.
use go_metrics_stas.Prelude.{
  String, ◌≡◌, refl, sym, ◌∙◌, Option, none, some, Bool, true, false, List, [], ◌∷◌, ◌==◌, arith,
  eq_iff, Bool-cases, inl, inr, All, All-split,
}
use go_metrics_stas.Dict.{Dict, get, put, keys}
use go_metrics_stas.Dict.Laws.{get-put, HasDistinctKeys, put-HasDistinctKeys}
use go_metrics_stas.Reset.{StructInfo, Types}
use go_metrics_stas.Reset.Print.{generated_file}
use go_metrics_stas.Reset.Walk
use go_metrics_stas.Reset.Marked.{only_if, marked_in_files, all_marked, find_in_files-marked}

put-All {ℓ} :
    {V : Type ℓ} (P : String → Type 0) (k : String) (v : V) (m : Dict V)
    → P k
    → All P (keys m)
    → All P (keys (put k v m))
unfolding put
put-All P k v [] p h = (p, tt)
put-All P k v ((j, w) ∷ m) p h = elim (Bool-cases (j == k)) [
  | inl e ↦ rw e (p, h.1)
  | inr e ↦ rw e (h.0, put-All P k v m p h.1)
]

module _ (types : Types) (lib : Walk.Library) where
  module _ (P : String → Type 0) where
    add_structs-All :
        (structs : List StructInfo) (by_dir : Dict (List StructInfo))
        → All (λ (s : StructInfo). P (lib.dir s.file_path)) structs
        → All P (keys by_dir)
        → All P (keys (Walk.add_structs types lib structs by_dir))
    unfolding Walk.add_structs Walk.add_struct
    add_structs-All [] by_dir f h = h
    add_structs-All (s ∷ structs) by_dir f h =
        add_structs-All structs _ f.1 (put-All P (lib.dir s.file_path) _ by_dir f.0 h)

    add_package-All :
        (b : Bool) (structs : List StructInfo) (by_dir : Dict (List StructInfo))
        → All (λ (s : StructInfo). P (lib.dir s.file_path)) (only_if b structs)
        → All P (keys by_dir)
        → All P (keys (Walk.add_package types lib b structs by_dir))
    unfolding Walk.add_package
    add_package-All false structs by_dir f h = h
    add_package-All true structs by_dir f h = add_structs-All structs by_dir f h

    -- What holds of the folders of the marked structs holds of all folders that are written to.
    pub structs_by_dir-All :
        (pkgs : List (Walk.Package types)) (by_dir : Dict (List StructInfo))
        → All (λ (s : StructInfo). P (lib.dir s.file_path)) (all_marked types lib pkgs)
        → All P (keys by_dir)
        → All P (keys (Walk.structs_by_dir types lib pkgs by_dir))
    unfolding Walk.structs_by_dir Walk.find_marked_structs
    structs_by_dir-All [] by_dir f h = h
    structs_by_dir-All (pkg ∷ pkgs) by_dir f h =
        let here = marked_in_files types lib pkg pkg.compiled_go_files pkg.syntax in
        let (g, k) =
          All-split (λ (s : StructInfo). P (lib.dir s.file_path)) (only_if pkg.has_types_info here)
            (all_marked types lib pkgs) f in
        rw (find_in_files-marked types lib pkg pkg.compiled_go_files pkg.syntax)
          (structs_by_dir-All pkgs _ k (add_package-All pkg.has_types_info here by_dir g h))

  add_structs-HasDistinctKeys :
      (structs : List StructInfo) (by_dir : Dict (List StructInfo))
      → HasDistinctKeys by_dir
      → HasDistinctKeys (Walk.add_structs types lib structs by_dir)
  unfolding Walk.add_structs Walk.add_struct
  add_structs-HasDistinctKeys [] by_dir h = h
  add_structs-HasDistinctKeys (s ∷ structs) by_dir h =
      add_structs-HasDistinctKeys structs _ (put-HasDistinctKeys _ _ by_dir h)

  add_package-HasDistinctKeys :
      (b : Bool) (structs : List StructInfo) (by_dir : Dict (List StructInfo))
      → HasDistinctKeys by_dir
      → HasDistinctKeys (Walk.add_package types lib b structs by_dir)
  unfolding Walk.add_package
  add_package-HasDistinctKeys false structs by_dir h = h
  add_package-HasDistinctKeys true structs by_dir h = add_structs-HasDistinctKeys structs by_dir h

  pub structs_by_dir-HasDistinctKeys :
      (pkgs : List (Walk.Package types)) (by_dir : Dict (List StructInfo))
      → HasDistinctKeys by_dir
      → HasDistinctKeys (Walk.structs_by_dir types lib pkgs by_dir)
  unfolding Walk.structs_by_dir
  structs_by_dir-HasDistinctKeys [] by_dir h = h
  structs_by_dir-HasDistinctKeys (pkg ∷ pkgs) by_dir h = structs_by_dir-HasDistinctKeys pkgs _ (
      add_package-HasDistinctKeys pkg.has_types_info (Walk.find_marked_structs types lib pkg) by_dir
        h)

  write_text-get :
      (file e : String) (o : Option String) (files : Dict String)
      → ¬ (file ≡ lib.generated_path e)
      → get file (Walk.write_text types lib e o files) ≡ get file files
  unfolding Walk.write_text
  write_text-get file e none files h = refl
  write_text-get file e (some text) files h = elim (Bool-cases (lib.generated_path e == file)) [
    | inl same ↦ absurd (h (sym ((eq_iff (lib.generated_path e) file).0 same)))
    | inr other ↦ ground (
      arith,
      get-put (lib.generated_path e) file
          (Walk.formatted_or types lib (lib.format_source text) text) files,
    )
  ]

  -- A file that belongs to no folder of the loop stays.
  pub write_all-get :
      (file : String) (by_dir : Dict (List StructInfo)) (files : Dict String)
      → All (λ e. ¬ (file ≡ lib.generated_path e)) (keys by_dir)
      → get file (Walk.write_all types lib by_dir files) ≡ get file files
  unfolding Walk.write_all Walk.write_generated_file
  write_all-get file [] files h = refl
  write_all-get file ((e, structs) ∷ by_dir) files h =
      write_all-get file by_dir _ h.1 ∙ write_text-get file e (generated_file structs) files h.0
