-- ===== src/Repository/File/Recovery.antt =====
-- What is left of the metrics after a save and a restart, and what a failed save leaves of the file.
use mathlib.Core.List.{Perm}
use Prim.Native.String
use text.Mathlib.TextLemmas
use go_metrics_stas.Prelude.Text.{eq_false_of_ne}
use go_metrics_stas.Prelude.{
  ◌<◌, ◌^◌, String, ◌≡◌, ◌≢◌, refl, ap, ◌∙◌, sym, Option, none, some, false, List, [], ◌∷◌, ◌==◌,
  arith, eq_iff, eq_refl, Option-cases, inl, inr,
}
use go_metrics_stas.Dict.{Dict, get, put, remove, values}
use go_metrics_stas.Dict.Laws.{get-put}
use go_metrics_stas.Model.{Int64, Float64, Metrics}
use go_metrics_stas.Outcome.{Error, ok, err}
use go_metrics_stas.Repository.Batch.{deltas, keep_delta, last_value, sum, counted}
use go_metrics_stas.Repository.Batch.Pick.{at_most_one, deltas-pick, last_value-pick, pick-eq-get}
use go_metrics_stas.Repository.Mem.{
  MemStorage, new_mem_storage, collect_all, set_gauge, add_counter, apply_item, apply_items,
}
use go_metrics_stas.Repository.Mem.Laws.{
  IsValid, listed, get-collect_all, collect_all-HasDistinctKeys, counters-apply_items,
  gauges-apply_items,
}
use go_metrics_stas.Repository.Mem.Named.{collect_all-IsNamed}
use go_metrics_stas.Repository.Mem.Sound.{IsSound}
use go_metrics_stas.Repository.File.{
  Bytes, Codec, Weather, FileStorage, tmp_path, saved_list, save_to_file, Mkdir, make_dir,
}
use go_metrics_stas.Repository.File.Start.{load_gauge, load_counter, load_item, load_items}

pub load_gauge-eq-set_gauge :
    (id : String) (o : Option Float64) (ms : MemStorage) → load_gauge id o ms ≡ set_gauge id o ms
unfolding load_gauge set_gauge
load_gauge-eq-set_gauge id none ms = refl
load_gauge-eq-set_gauge id (some v) ms = refl

load_counter-eq-add_counter :
    (id : String) (o : Option Int64) (ms : MemStorage) → load_counter id o ms ≡ add_counter id o ms
unfolding load_counter add_counter
load_counter-eq-add_counter id none ms = refl
load_counter-eq-add_counter id (some d) ms = refl

-- The loop of `loadFromFile` is that of `UpdateBatch`.
pub load_items-eq-apply_items :
    (items : List Metrics) (ms : MemStorage) → load_items items ms ≡ apply_items items ms
unfolding load_items load_item apply_items apply_item
load_items-eq-apply_items [] ms = refl
load_items-eq-apply_items (m ∷ items) ms =
    rw (load_gauge-eq-set_gauge, load_counter-eq-add_counter) (load_items-eq-apply_items items _)

-- The values of a counter and a gauge that a saved list holds under a name.
module _ (j : String) (ms : MemStorage) (valid : IsValid ms) {items : List Metrics}
    (p : Perm items (values (collect_all ms))) where
  picked : List Metrics
  picked = at_most_one (listed j (get j ms.counters) (get j ms.gauges))

  deltas-saved : deltas j items ≡ deltas j picked
  unfolding picked
  deltas-saved =
      sym (deltas-pick j items)
      ∙ ap (deltas j) (
          pick-eq-get j (collect_all ms) (collect_all-IsNamed ms) (collect_all-HasDistinctKeys ms)
            p)
      ∙ ap (λ o. deltas j (at_most_one o)) (get-collect_all j ms valid)

  last_value-saved : last_value j items ≡ last_value j picked
  unfolding picked
  last_value-saved =
      sym (last_value-pick j items)
      ∙ ap (last_value j) (
          pick-eq-get j (collect_all ms) (collect_all-IsNamed ms) (collect_all-HasDistinctKeys ms)
            p)
      ∙ ap (λ o. last_value j (at_most_one o)) (get-collect_all j ms valid)

-- The counter and the gauge that a list of one metric at most gives to an empty storage.
counted-listed :
    (j : String) (c : Option Int64) (g : Option Float64)
    → ((d : Int64) → c ≡ some d → d < 2 ^ 64)
    → counted none (deltas j (at_most_one (listed j c g))) ≡ c
unfolding deltas keep_delta sum
counted-listed j none none h = refl
counted-listed j none (some v) h = refl
counted-listed j (some d) g h = ground (arith, eq_iff j j, h d refl)

-- A gauge is listed unless a counter has its name.
abbrev pub unshadowed : Option Int64 → Option Float64 → Option Float64
unshadowed none g = g
unshadowed (some d) g = none

last_value-listed :
    (j : String) (c : Option Int64) (g : Option Float64)
    → last_value j (at_most_one (listed j c g)) ≡ unshadowed c g
unfolding last_value
last_value-listed j none none = refl
last_value-listed j none (some v) = ground (arith, eq_iff j j)
last_value-listed j (some d) g = refl

module _ (j : String) (ms : MemStorage) (sound : IsSound ms) {items : List Metrics}
    (p : Perm items (values (collect_all ms))) where
  pub counter-reloaded : get j (load_items items new_mem_storage).counters ≡ get j ms.counters
  unfolding get
  counter-reloaded =
      ap (λ (t : MemStorage). get j t.counters) (load_items-eq-apply_items items new_mem_storage)
      ∙ counters-apply_items j items new_mem_storage
      ∙ ap (counted none) (deltas-saved j ms sound.valid p)
      ∙ unfold picked in counted-listed j (get j ms.counters) (get j ms.gauges) (sound.in_range j)

  pub gauge-reloaded :
      get j (load_items items new_mem_storage).gauges
      ≡ unshadowed (get j ms.counters) (get j ms.gauges)
  unfolding get picked
  gauge-reloaded = ground (
    arith,
    load_items-eq-apply_items items new_mem_storage,
    gauges-apply_items j items new_mem_storage,
    last_value-saved j ms sound.valid p,
    last_value-listed j (get j ms.counters) (get j ms.gauges),
  )

tmp_path-ne : (path : String) → tmp_path path ≢ path
tmp_path-ne path e = omega (arith, TextLemmas.length-append path ".tmp", ap String.count e)

tmp_path-eq-false : (path : String) → (tmp_path path == path) ≡ false
tmp_path-eq-false path = eq_false_of_ne (tmp_path-ne path)

get-put_tmp :
    (path : String) (b : Bytes) (disk : Dict Bytes)
    → get path (put (tmp_path path) b disk) ≡ get path disk
get-put_tmp path b disk = rw (get-put, tmp_path-eq-false path)

module _ (k : Mkdir) (w : Weather) (path : String) (disk : Dict Bytes) where
  make_dir-ok :
      (encoded : Option Bytes)
      → (make_dir k w path encoded disk).0 ≡ ok tt
      → (b : Bytes) × (encoded ≡ some b) × (get path (make_dir k w path encoded disk).1 ≡ some b)
  unfolding make_dir
  make_dir-ok none h = ground arith
  make_dir-ok (some b) h = (
    b,
    refl,
    ground (
      arith,
      get-put path path b (remove (tmp_path path) (put (tmp_path path) b disk)),
      eq_refl path,
    ),
  )

  make_dir-err :
      (encoded : Option Bytes) (e : Error)
      → (make_dir k w path encoded disk).0 ≡ err e
      → get path (make_dir k w path encoded disk).1 ≡ get path disk
  unfolding make_dir
  make_dir-err none e h = ground (arith, get-put_tmp path [] disk)
  make_dir-err (some b) e h = elim (Option-cases w.write_fails) [
    | inl n ↦ ground (arith, get-put_tmp path b disk)
    | inr (q, n) ↦ ground (arith, get-put_tmp path q disk)
  ]

module _ (codec : Codec) (s : FileStorage) where
  -- A save that succeeds has put the encoding of the listed metrics at the path.
  pub save_to_file-ok :
      (save_to_file codec s).0 ≡ ok tt
      → (b : Bytes) × (codec.encode (saved_list codec (s.weather s.saves) s.mem) ≡ some b)
        × (get s.file_path (save_to_file codec s).1.disk ≡ some b)
  unfolding save_to_file
  save_to_file-ok = make_dir-ok _ (s.weather s.saves) s.file_path s.disk _

  -- A save that fails leaves the file at the path, and the metrics in memory, as they were.
  pub save_to_file-err :
      (e : Error)
      → (save_to_file codec s).0 ≡ err e
      → (get s.file_path (save_to_file codec s).1.disk ≡ get s.file_path s.disk)
        × ((save_to_file codec s).1.mem ≡ s.mem)
  unfolding save_to_file
  save_to_file-err e h = (make_dir-err _ (s.weather s.saves) s.file_path s.disk _ e h, refl)
