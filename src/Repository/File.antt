-- ===== src/Repository/File.antt =====
-- internal/repository/filestorage.go: `fileBackedStorage`, a `MemStorage` with a file behind it.
--
-- The disk is a map from paths to contents. What the operating system and the Go runtime decide at
-- one save is a `Weather`: which calls fail, and the order in which Go ranges over a map. The state
-- holds the weather of every save to come. Encoding and decoding of JSON are a parameter.
pub mod Start
mod Sample
mod Tests
pub mod Memory
pub mod Recovery
pub mod Reached
pub mod Restart
pub mod Lawfulness
use Prim.Native.String
use go_metrics_stas.Prelude.{
  ℕ, suc, String, Option, none, some, Bool, true, false, List, [], ◌∷◌, ◌≡◌, ◌==◌, if◌then◌else◌,
  eqb,
}
use mathlib.Core.List.{Perm}
use go_metrics_stas.Dict.{Dict, put, remove, values}
use go_metrics_stas.Model.{Int64, Float64, Metrics}
use go_metrics_stas.Outcome.{Error, failure, Result, ok, err, Exec}
use go_metrics_stas.Repository.{Storage}
use go_metrics_stas.Repository.Mem
use go_metrics_stas.Repository.Mem.{MemStorage, new_mem_storage, collect_all, apply_items}

-- The contents of a file.
abbrev pub Bytes : Type 0
Bytes = List ℕ

-- encoding/json at `[]model.Metrics`. `Encode` refuses some lists (a NaN, an infinity), and
-- `Decode` gives back the list of a text that `Encode` has written.
pub record Codec : Type 0 where
  pub encode : List Metrics → Option Bytes
  pub decode : Bytes → Option (List Metrics)
  pub decode-encode :
      (items : List Metrics) (b : Bytes) → encode items ≡ some b → decode b ≡ some items

-- How a call of `os.MkdirAll` ends.
pub data Mkdir : Type 0 where
  made exists refused : Mkdir

pub record Weather : Type 0 where
  -- the order in which `for _, v := range m` meets the values
  pub order : List Metrics → List Metrics
  pub order-perm : (items : List Metrics) → Perm (order items) items
  pub mkdir : Mkdir
  pub create_fails : Bool
  -- a failed write leaves these bytes
  pub write_fails : Option Bytes
  pub close_fails : Bool
  pub rename_fails : Bool

pub record FileStorage : Type 0 where
  pub mem : MemStorage
  pub disk : Dict Bytes
  pub file_path : String
  pub sync_write : Bool
  -- the weather of the save to come with each number, and the number of the next one
  pub weather : ℕ → Weather
  pub saves : ℕ

abbrev pub tmp_path : String → String
tmp_path path = String.◌++◌ path ".tmp"

abbrev pub disk_error : Error
disk_error = failure "disk"

-- `os.Rename(tmp, path)`.
abbrev pub rename : String → String → Bytes → Dict Bytes → Dict Bytes
rename tmp path b disk = put path b (remove tmp disk)

-- What is left to do after `enc.Encode` has written: `Close` and `Rename`.
finish_save : Weather → String → Bytes → Dict Bytes → Result (Unit {0}) × Dict Bytes
finish_save w path b disk =
    if w.close_fails
    then (err disk_error, put (tmp_path path) b disk)
    else if w.rename_fails
    then (err disk_error, put (tmp_path path) b disk)
    else (ok tt, rename (tmp_path path) path b (put (tmp_path path) b disk))

-- `enc.Encode(list)` on the file just created: it writes nothing if the list has no encoding.
write_list :
    Weather → String → Option Bytes → Option Bytes → Dict Bytes → Result (Unit {0}) × Dict Bytes
unfolding finish_save
write_list w path none partial disk = (err (failure "json"), put (tmp_path path) [] disk)
write_list w path (some b) none disk = finish_save w path b disk
write_list w path (some b) (some p) disk = (err disk_error, put (tmp_path path) p disk)

create_tmp : Weather → String → Option Bytes → Dict Bytes → Result (Unit {0}) × Dict Bytes
unfolding write_list
create_tmp w path encoded disk =
    if w.create_fails then (err disk_error, disk) else write_list w path encoded w.write_fails disk

-- `os.MkdirAll`: an error is passed over if the folder is there.
make_dir : Mkdir → Weather → String → Option Bytes → Dict Bytes → Result (Unit {0}) × Dict Bytes
unfolding create_tmp
make_dir Mkdir.refused w path encoded disk = (err disk_error, disk)
make_dir Mkdir.made w path encoded disk = create_tmp w path encoded disk
make_dir Mkdir.exists w path encoded disk = create_tmp w path encoded disk

module _ (codec : Codec) where
  -- The list that a save encodes: the values of `GetAllMetrics`, in the order of the range.
  abbrev pub saved_list : Weather → MemStorage → List Metrics
  saved_list w ms = w.order (values (collect_all ms))

  unfoldable pub save_to_file : Exec FileStorage (Unit {0})
  unfolding make_dir
  save_to_file s =
      let w = s.weather s.saves in
      let (r, disk) = make_dir w.mkdir w s.file_path (codec.encode (saved_list w s.mem)) s.disk in
      (r, record s { disk = disk; saves = suc s.saves })

  -- A write in sync mode saves after each update, and only logs the error of the save.
  sync_save : FileStorage → FileStorage
  sync_save s = if s.sync_write then (save_to_file s).1 else s

  unfoldable pub update_gauge : String → Float64 → FileStorage → FileStorage
  unfolding sync_save
  update_gauge id value s = sync_save (record s { mem = Mem.update_gauge id value s.mem })

  unfoldable pub update_counter : String → Int64 → FileStorage → FileStorage
  unfolding sync_save
  update_counter id delta s = sync_save (record s { mem = Mem.update_counter id delta s.mem })

  -- The error of a save in sync mode is the error of the batch.
  unfoldable pub update_batch : List Metrics → Exec FileStorage (Unit {0})
  update_batch [] s = (ok tt, s)
  update_batch (m ∷ items) s =
      let s' = record s { mem = (Mem.update_batch (m ∷ items) s.mem).1 } in
      if s'.sync_write then save_to_file s' else (ok tt, s')

  -- A method of the embedded `MemStorage`.
  abbrev pub promoted : {A : Type 0} → Exec MemStorage A → Exec FileStorage A
  promoted m s = let (r, mem) = m s.mem in (r, record s { mem = mem })

  abbrev pub file_storage : Storage FileStorage
  file_storage = record {
    update_gauge = update_gauge;
    update_counter = update_counter;
    get_gauge = λ id. promoted (Mem.get_gauge id);
    get_counter = λ id. promoted (Mem.get_counter id);
    get_all_metrics = promoted Mem.get_all_metrics;
    update_batch = update_batch;
  }
