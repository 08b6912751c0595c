-- ===== src/Repository/File/Start.antt =====
-- internal/repository/filestorage.go: `loadFromFile`, `NewFileStorage` and its hooks.
use go_metrics_stas.Prelude.{
  ℕ, String, Option, none, some, Bool, List, [], ◌∷◌, ◌==◌, if◌then◌else◌, eqb,
}
use go_metrics_stas.Dict.{Dict, get}
use go_metrics_stas.Model.{Int64, Float64, Metrics}
use go_metrics_stas.Outcome.{failure, Result, ok, err}
use go_metrics_stas.Repository.Mem
use go_metrics_stas.Repository.Mem.{MemStorage, new_mem_storage}
use go_metrics_stas.Repository.File.{
  Bytes, Codec, Weather, FileStorage, save_to_file, update_gauge, update_counter, update_batch,
}

unfoldable pub load_gauge : String → Option Float64 → MemStorage → MemStorage
load_gauge id none ms = ms
load_gauge id (some v) ms = Mem.update_gauge id v ms

unfoldable pub load_counter : String → Option Int64 → MemStorage → MemStorage
load_counter id none ms = ms
load_counter id (some d) ms = Mem.update_counter id d ms

-- One round of the loop of `loadFromFile`.
unfoldable pub load_item : Metrics → MemStorage → MemStorage
unfolding load_gauge load_counter
load_item m ms =
    if m.mtype == "gauge"
    then load_gauge m.id m.value ms
    else if m.mtype == "counter"
    then load_counter m.id m.delta ms
    else ms

unfoldable pub load_items : List Metrics → MemStorage → MemStorage
unfolding load_item
load_items [] ms = ms
load_items (m ∷ items) ms = load_items items (load_item m ms)

-- How `loadFromFile` ends: `os.ErrNotExist`, another error, or the storage that it filled.
pub data Load : Type 0 where
  not_exist broken : Load
  loaded : MemStorage → Load

unfoldable pub decoded : Option (List Metrics) → MemStorage → Load
decoded none ms = broken
decoded (some items) ms = loaded (load_items items ms)

unfoldable pub read_file : Codec → Option Bytes → MemStorage → Load
unfolding decoded
read_file codec none ms = not_exist
read_file codec (some b) ms = decoded (codec.decode b) ms

-- The fields of `ServerConfig` that the storage reads; `store_interval` in nanoseconds.
pub record FileConfig : Type 0 where
  pub file_storage_path : String
  pub store_interval : ℕ
  pub restore : Bool

unfoldable pub restored : FileStorage → Load → Result FileStorage
restored s not_exist = ok s
restored s broken = err (failure "load")
restored s (loaded ms) = ok (record s { mem = ms })

-- What the server asks of the storage, and the ticks of the background worker: a failed periodic
-- save is logged and the worker goes on.
pub data Event : Type 0 where
  set : String → Float64 → Event
  add : String → Int64 → Event
  batch : List Metrics → Event
  tick : Event

module _ (codec : Codec) where
  -- `open_fails`: the file is there and cannot be opened.
  unfoldable pub load_from_file : Bool → String → Dict Bytes → MemStorage → Load
  unfolding read_file
  load_from_file open_fails path disk ms =
      if open_fails then broken else read_file codec (get path disk) ms

  unfoldable pub new_file_storage :
      FileConfig → Bool → Dict Bytes → (ℕ → Weather) → Result FileStorage
  unfolding restored
  new_file_storage cfg open_fails disk weather =
      let s : FileStorage = record {
        mem = new_mem_storage;
        disk = disk;
        file_path = cfg.file_storage_path;
        sync_write = eqb cfg.store_interval 0;
        weather = weather;
        saves = 0;
      } in
      if cfg.restore
      then restored s (load_from_file open_fails cfg.file_storage_path disk new_mem_storage)
      else ok s

  unfoldable pub handle_event : Event → FileStorage → FileStorage
  handle_event (set id v) s = update_gauge codec id v s
  handle_event (add id d) s = update_counter codec id d s
  handle_event (batch items) s = (update_batch codec items s).1
  handle_event tick s = (save_to_file codec s).1

  unfoldable pub run_events : List Event → FileStorage → FileStorage
  run_events [] s = s
  run_events (e ∷ events) s = run_events events (handle_event e s)

  -- The hook `OnStop`, once the worker is stopped.
  unfoldable pub on_stop : FileStorage → Result (Unit {0}) × FileStorage
  on_stop s = save_to_file codec s
