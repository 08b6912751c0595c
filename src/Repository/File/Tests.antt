-- ===== src/Repository/File/Tests.antt =====
-- Runs of the storage in a file, and the theorems at them.
use go_metrics_stas.Prelude.{◌≡◌, refl, true, false, [], ◌∷◌}
use go_metrics_stas.Dict.{get, put, remove, put_all}
use go_metrics_stas.Outcome.{ok, err}
use go_metrics_stas.Repository.Mem
use go_metrics_stas.Repository.Mem.{MemStorage, new_mem_storage}
use go_metrics_stas.Repository.File.{
  FileStorage, save_to_file, update_gauge, update_counter, update_batch, disk_error,
}
use go_metrics_stas.Repository.File.Start.{
  Event, new_file_storage, handle_event, run_events, on_stop, load_from_file,
}
use go_metrics_stas.Repository.File.Sample.{sample_codec, changing, sample_config, sample_events}
use go_metrics_stas.Repository.File.Memory.{mem-run_events}
use go_metrics_stas.Repository.File.Restart.{BroughtBack, restart_after_run}
use go_metrics_stas.Repository.File.Recovery.{save_to_file-err}

abbrev started : FileStorage
started = record {
  mem = new_mem_storage;
  disk = [];
  file_path = "/tmp/m.json";
  sync_write = true;
  weather = changing;
  saves = 0;
}

runs : Unit {0}
unfolding new_file_storage load_from_file run_events handle_event on_stop save_to_file update_gauge
    update_counter update_batch Mem.update_gauge Mem.update_counter Mem.update_batch Mem.apply_items
    Mem.apply_item Mem.get_all_metrics get put remove put_all
runs = tt

starts : new_file_storage sample_codec sample_config false [] changing ≡ ok started
unfolding runs
starts = refl

stops : (on_stop sample_codec (run_events sample_codec sample_events started)).0 ≡ ok tt
unfolding runs
stops = refl

restart_after_run_example :
    (t : FileStorage) × (new_file_storage sample_codec sample_config false
        (on_stop sample_codec (run_events sample_codec sample_events started)).1.disk
        changing
      ≡ ok t)
    × BroughtBack sample_codec (run_events sample_codec sample_events started) t
restart_after_run_example =
    restart_after_run sample_codec sample_config sample_config false [] changing changing started
      sample_events starts stops refl refl

-- The same metrics in memory, in a storage that saves on its own clock.
abbrev lazy : FileStorage
lazy = record started { sync_write = false; file_path = "other" }

mem-run_events_example :
    (run_events sample_codec sample_events started).mem
    ≡ (run_events sample_codec sample_events lazy).mem
mem-run_events_example = mem-run_events sample_codec sample_codec sample_events started lazy refl

-- The third save of the run fails at its `Rename`.
abbrev unlucky : FileStorage
unlucky = run_events sample_codec (Event.set "a" 5 ∷ Event.add "a" 7 ∷ []) started

save_fails : (save_to_file sample_codec unlucky).0 ≡ err disk_error
unfolding runs
save_fails = refl

save_to_file-err_example :
    (get "/tmp/m.json" (save_to_file sample_codec unlucky).1.disk ≡ get "/tmp/m.json" unlucky.disk)
    × ((save_to_file sample_codec unlucky).1.mem ≡ unlucky.mem)
unfolding runs
save_to_file-err_example = save_to_file-err sample_codec unlucky disk_error save_fails
