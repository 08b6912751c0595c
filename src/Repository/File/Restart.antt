-- ===== src/Repository/File/Restart.antt =====
-- A server that stops and starts again has its metrics back.
use go_metrics_stas.Prelude.{
  ℕ, String, ◌≡◌, refl, ap, sym, ◌∙◌, some, Bool, true, false, List, [], ◌∷◌, eqb,
}
use go_metrics_stas.Dict.{Dict, get}
use go_metrics_stas.Model.{Metrics}
use go_metrics_stas.Outcome.{ok, counter_not_found, gauge_not_found}
use go_metrics_stas.Repository.Mem
use go_metrics_stas.Repository.Mem.{MemStorage, found, new_mem_storage}
use go_metrics_stas.Repository.Mem.Sound.{
  IsSound, update_gauge-IsSound, update_counter-IsSound, update_batch-IsSound,
}
use go_metrics_stas.Repository.File.{Bytes, Codec, Weather, FileStorage, save_to_file, saved_list}
use go_metrics_stas.Repository.File.Start.{
  FileConfig, load_items, load_from_file, new_file_storage, loaded, Event, set, add, batch, tick,
  handle_event, run_events, on_stop,
}
use go_metrics_stas.Repository.File.Memory.{
  mem-save_to_file, path-save_to_file, mem-update_gauge, path-update_gauge, mem-update_counter,
  path-update_counter, mem-update_batch, path-update_batch,
}
use go_metrics_stas.Repository.File.Reached.{new_file_storage-IsSound}
use go_metrics_stas.Repository.File.Recovery.{
  unshadowed, counter-reloaded, gauge-reloaded, save_to_file-ok,
}

module _ (codec : Codec) where
  -- If `t` shows what a restart is to bring back from `s`: every counter, and every gauge that has
  -- no counter of its name.
  pub record BroughtBack (s t : FileStorage) : Type 0 where
    pub counters : (j : String) → (Mem.get_counter j t.mem).0 ≡ (Mem.get_counter j s.mem).0
    pub gauges :
        (j : String)
        → (Mem.get_gauge j t.mem).0
          ≡ found gauge_not_found (unshadowed (get j s.mem.counters) (get j s.mem.gauges))

  load_from_file-eq-loaded :
      (path : String) (disk : Dict Bytes) (ms : MemStorage) {b : Bytes} {items : List Metrics}
      → get path disk ≡ some b
      → codec.decode b ≡ some items
      → load_from_file codec false path disk ms ≡ loaded (load_items items ms)
  unfolding load_from_file
  load_from_file-eq-loaded path disk ms p q = rw (p, q)

  module _ (cfg : FileConfig) (weather : ℕ → Weather) (disk : Dict Bytes) where
    -- The storage that `NewFileStorage` builds around some metrics.
    started : MemStorage → FileStorage
    started ms = record {
      mem = ms;
      disk = disk;
      file_path = cfg.file_storage_path;
      sync_write = eqb cfg.store_interval 0;
      weather = weather;
      saves = 0;
    }

    new_file_storage-eq-started :
        cfg.restore ≡ true
        → {ms : MemStorage}
        → load_from_file codec false cfg.file_storage_path disk new_mem_storage ≡ loaded ms
        → new_file_storage codec cfg false disk weather ≡ ok (started ms)
    unfolding new_file_storage started
    new_file_storage-eq-started r l = rw (r, l)

  restart-save_to_file :
      (cfg : FileConfig) (weather : ℕ → Weather) (s : FileStorage)
      → IsSound s.mem
      → cfg.restore ≡ true
      → cfg.file_storage_path ≡ s.file_path
      → (save_to_file codec s).0 ≡ ok tt
      → (t : FileStorage) × (new_file_storage codec cfg false (save_to_file codec s).1.disk weather
          ≡ ok t)
        × BroughtBack s t
  restart-save_to_file cfg weather s sound r e h =
      let w = s.weather s.saves in
      let items = saved_list codec w s.mem in
      let disk = (save_to_file codec s).1.disk in
      let (b, encoded, written) = save_to_file-ok codec s h in
      (
        started cfg weather disk (load_items items new_mem_storage),
        new_file_storage-eq-started cfg weather disk r (
            load_from_file-eq-loaded cfg.file_storage_path disk new_mem_storage (rw e written)
              (codec.decode-encode items b encoded)),
        (unfold started Mem.get_counter Mem.get_gauge in
            record {
              counters = λ j.
                  ap (found counter_not_found) (counter-reloaded j s.mem sound (w.order-perm _));
              gauges =
                  λ j. ap (found gauge_not_found) (gauge-reloaded j s.mem sound (w.order-perm _));
            }),
      )

  handle_event-IsSound :
      (e : Event) (s : FileStorage) → IsSound s.mem → IsSound (handle_event codec e s).mem
  unfolding handle_event
  handle_event-IsSound (set id v) s h =
      rw (mem-update_gauge codec id v s) (update_gauge-IsSound id v h)
  handle_event-IsSound (add id d) s h =
      rw (mem-update_counter codec id d s) (update_counter-IsSound id d h)
  handle_event-IsSound (batch items) s h =
      rw (mem-update_batch codec items s) (update_batch-IsSound items s.mem h)
  handle_event-IsSound tick s h = rw (mem-save_to_file codec s) h

  path-handle_event :
      (e : Event) (s : FileStorage) → (handle_event codec e s).file_path ≡ s.file_path
  unfolding handle_event
  path-handle_event (set id v) s = path-update_gauge codec id v s
  path-handle_event (add id d) s = path-update_counter codec id d s
  path-handle_event (batch items) s = path-update_batch codec items s
  path-handle_event tick s = path-save_to_file codec s

  run_events-IsSound :
      (events : List Event) (s : FileStorage)
      → IsSound s.mem
      → IsSound (run_events codec events s).mem
  unfolding run_events
  run_events-IsSound [] s h = h
  run_events-IsSound (e ∷ events) s h =
      run_events-IsSound events (handle_event codec e s) (handle_event-IsSound e s h)

  path-run_events :
      (events : List Event) (s : FileStorage) → (run_events codec events s).file_path ≡ s.file_path
  unfolding run_events
  path-run_events [] s = refl
  path-run_events (e ∷ events) s =
      path-run_events events (handle_event codec e s) ∙ path-handle_event e s

  -- What a restart gives back of a run: after any events on a storage that `NewFileStorage` has
  -- returned, whatever its file held and whichever of the saves failed, if the save of the shutdown
  -- succeeds then a start that restores from that file, and can open it, succeeds; it shows every
  -- counter that the stopped server showed, and every gauge that has no counter of its name.
  pub restart_after_run :
      (cfg cfg' : FileConfig) (open_fails : Bool) (disk : Dict Bytes)
      (weather weather' : ℕ → Weather) (s : FileStorage) (events : List Event)
      → new_file_storage codec cfg open_fails disk weather ≡ ok s
      → (on_stop codec (run_events codec events s)).0 ≡ ok tt
      → cfg'.restore ≡ true
      → cfg'.file_storage_path ≡ cfg.file_storage_path
      → (t : FileStorage) × (new_file_storage codec cfg' false
            (on_stop codec (run_events codec events s)).1.disk
            weather'
          ≡ ok t)
        × BroughtBack (run_events codec events s) t
  unfolding on_stop
  restart_after_run cfg cfg' open_fails disk weather weather' s events started stopped r same =
      let (sound, path) = new_file_storage-IsSound codec cfg open_fails disk weather s started in
      restart-save_to_file cfg' weather' (run_events codec events s)
        (run_events-IsSound events s sound) r (same ∙ sym path ∙ sym (path-run_events events s))
        stopped
