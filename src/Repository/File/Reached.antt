-- ===== src/Repository/File/Reached.antt =====
-- A storage that `NewFileStorage` returns is sound, whatever the file held.
use go_metrics_stas.Prelude.{
  ℕ, String, ◌≡◌, refl, Bool-cases, inl, inr, Option, none, some, Bool, true, false, List,
}
use go_metrics_stas.Dict.{Dict, get}
use go_metrics_stas.Model.{Metrics}
use go_metrics_stas.Outcome.{ok, err, Result}
use go_metrics_stas.Repository.Mem.{new_mem_storage}
use go_metrics_stas.Repository.Mem.Sound.{IsSound, new_mem_storage-IsSound, apply_items-IsSound}
use go_metrics_stas.Repository.File.{Bytes, Codec, Weather, FileStorage}
use go_metrics_stas.Repository.File.Start.{
  Load, not_exist, broken, loaded, decoded, read_file, load_from_file, FileConfig, restored,
  new_file_storage,
}
use go_metrics_stas.Repository.File.Recovery.{load_items-eq-apply_items}

-- If a load gives a sound storage.
abbrev LoadsSound : Load → Type 0
LoadsSound not_exist = Unit
LoadsSound broken = Unit
LoadsSound (loaded ms) = IsSound ms

module _ (codec : Codec) where
  decoded-LoadsSound : (o : Option (List Metrics)) → LoadsSound (decoded o new_mem_storage)
  unfolding decoded
  decoded-LoadsSound none = tt
  decoded-LoadsSound (some items) =
      rw (load_items-eq-apply_items items new_mem_storage)
        (apply_items-IsSound items new_mem_storage new_mem_storage-IsSound)

  read_file-LoadsSound : (o : Option Bytes) → LoadsSound (read_file codec o new_mem_storage)
  unfolding read_file
  read_file-LoadsSound none = tt
  read_file-LoadsSound (some b) = decoded-LoadsSound (codec.decode b)

  load_from_file-LoadsSound :
      (open_fails : Bool) (path : String) (disk : Dict Bytes)
      → LoadsSound (load_from_file codec open_fails path disk new_mem_storage)
  unfolding load_from_file
  load_from_file-LoadsSound true path disk = tt
  load_from_file-LoadsSound false path disk = read_file-LoadsSound (get path disk)

-- If a start gives a sound storage at a path.
abbrev StartsSound : String → Result FileStorage → Type 0
StartsSound path (ok s) = IsSound s.mem × (s.file_path ≡ path)
StartsSound path (err e) = Unit

restored-StartsSound :
    (s : FileStorage) (l : Load)
    → IsSound s.mem
    → LoadsSound l
    → StartsSound s.file_path (restored s l)
unfolding restored
restored-StartsSound s not_exist h k = (h, refl)
restored-StartsSound s broken h k = tt
restored-StartsSound s (loaded ms) h k = (k, refl)

module _ (codec : Codec) (cfg : FileConfig) (open_fails : Bool) (disk : Dict Bytes)
    (weather : ℕ → Weather) where
  new_file_storage-StartsSound :
      StartsSound cfg.file_storage_path (new_file_storage codec cfg open_fails disk weather)
  unfolding new_file_storage
  new_file_storage-StartsSound = elim (Bool-cases cfg.restore) [
    | inl e ↦ rw e (
        restored-StartsSound _
          (load_from_file codec open_fails cfg.file_storage_path disk new_mem_storage)
          new_mem_storage-IsSound
          (load_from_file-LoadsSound codec open_fails cfg.file_storage_path disk))
    | inr e ↦ rw e (new_mem_storage-IsSound, refl)
  ]

  pub new_file_storage-IsSound :
      (s : FileStorage)
      → new_file_storage codec cfg open_fails disk weather ≡ ok s
      → IsSound s.mem × (s.file_path ≡ cfg.file_storage_path)
  new_file_storage-IsSound s e = rw e at new_file_storage-StartsSound
