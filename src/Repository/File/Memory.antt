-- ===== src/Repository/File/Memory.antt =====
-- The methods of `fileBackedStorage` do to the metrics in memory what those of `MemStorage` do,
-- however the saves end, and leave the path alone.
use go_metrics_stas.Prelude.{String, ◌≡◌, refl, List, [], ◌∷◌, arith}
use go_metrics_stas.Model.{Int64, Float64, Metrics}
use go_metrics_stas.Repository.Mem
use go_metrics_stas.Repository.File.{
  Codec, FileStorage, save_to_file, sync_save, update_gauge, update_counter, update_batch,
}
use go_metrics_stas.Repository.File.Start.{Event, set, add, batch, tick, handle_event, run_events}

module _ (codec : Codec) where
  module _ (s : FileStorage) where
    pub mem-save_to_file : (save_to_file codec s).1.mem ≡ s.mem
    unfolding save_to_file
    mem-save_to_file = refl

    pub path-save_to_file : (save_to_file codec s).1.file_path ≡ s.file_path
    unfolding save_to_file
    path-save_to_file = refl

  module _ (s : FileStorage) where
    mem-sync_save : (sync_save codec s).mem ≡ s.mem
    unfolding sync_save
    mem-sync_save = ground (arith, mem-save_to_file s)

    path-sync_save : (sync_save codec s).file_path ≡ s.file_path
    unfolding sync_save
    path-sync_save = ground (arith, path-save_to_file s)

  module _ (id : String) where
    pub mem-update_gauge :
        (v : Float64) (s : FileStorage)
        → (update_gauge codec id v s).mem ≡ Mem.update_gauge id v s.mem
    unfolding update_gauge
    mem-update_gauge v s = unfold sync_save in mem-sync_save _

    pub path-update_gauge :
        (v : Float64) (s : FileStorage) → (update_gauge codec id v s).file_path ≡ s.file_path
    unfolding update_gauge
    path-update_gauge v s = path-sync_save _

    pub mem-update_counter :
        (d : Int64) (s : FileStorage)
        → (update_counter codec id d s).mem ≡ Mem.update_counter id d s.mem
    unfolding update_counter
    mem-update_counter d s = mem-sync_save _

    pub path-update_counter :
        (d : Int64) (s : FileStorage) → (update_counter codec id d s).file_path ≡ s.file_path
    unfolding update_counter
    path-update_counter d s = path-sync_save _

  pub mem-update_batch :
      (items : List Metrics) (s : FileStorage)
      → (update_batch codec items s).1.mem ≡ (Mem.update_batch items s.mem).1
  unfolding update_batch Mem.update_batch
  mem-update_batch [] s = refl
  mem-update_batch (m ∷ items) s =
      ground (arith, mem-save_to_file (record s { mem = (Mem.update_batch (m ∷ items) s.mem).1 }))

  pub path-update_batch :
      (items : List Metrics) (s : FileStorage)
      → (update_batch codec items s).1.file_path ≡ s.file_path
  unfolding update_batch
  path-update_batch [] s = refl
  path-update_batch (m ∷ items) s =
      ground (arith, path-save_to_file (record s { mem = (Mem.update_batch (m ∷ items) s.mem).1 }))

mem-handle_event :
    (c c' : Codec) (x : Event) (s t : FileStorage)
    → s.mem ≡ t.mem
    → (handle_event c x s).mem ≡ (handle_event c' x t).mem
unfolding handle_event
mem-handle_event c c' (set id v) s t e =
    rw (mem-update_gauge c id v s, mem-update_gauge c' id v t, e)
mem-handle_event c c' (add id d) s t e =
    rw (mem-update_counter c id d s, mem-update_counter c' id d t, e)
mem-handle_event c c' (batch items) s t e =
    rw (mem-update_batch c items s, mem-update_batch c' items t, e)
mem-handle_event c c' tick s t e = rw (mem-save_to_file c s, mem-save_to_file c' t, e)

-- The disk decides nothing about the metrics: two storages, with any codecs, paths, modes and
-- weathers, that hold the same metrics in memory hold the same after the same events.
pub mem-run_events :
    (c c' : Codec) (events : List Event) (s t : FileStorage)
    → s.mem ≡ t.mem
    → (run_events c events s).mem ≡ (run_events c' events t).mem
unfolding run_events
mem-run_events c c' [] s t e = e
mem-run_events c c' (x ∷ events) s t e =
    mem-run_events c c' events (handle_event c x s) (handle_event c' x t)
      (mem-handle_event c c' x s t e)
