-- ===== src/Repository/Mem/Lawfulness.antt =====
-- `MemStorage` is a lawful `Storage`.
use go_metrics_stas.Prelude.{refl}
use go_metrics_stas.Dict.{get}
use go_metrics_stas.Dict.Laws.{get-put}
use go_metrics_stas.Repository.{Storage}
use go_metrics_stas.Repository.Lawful.{Lawful}
use go_metrics_stas.Repository.Mem
use go_metrics_stas.Repository.Mem.{MemStorage}
use go_metrics_stas.Repository.Mem.Laws
use go_metrics_stas.Repository.Mem.Sound
use go_metrics_stas.Repository.Mem.Sound.{IsSound}

abbrev pub mem_storage : Storage MemStorage
mem_storage = record {
  update_gauge = Mem.update_gauge;
  update_counter = Mem.update_counter;
  get_gauge = Mem.get_gauge;
  get_counter = Mem.get_counter;
  get_all_metrics = Mem.get_all_metrics;
  update_batch = Mem.update_batch;
}

pub mem_storage-Lawful : Lawful mem_storage
unfolding Mem.update_gauge Mem.update_counter Mem.get_gauge Mem.get_counter Mem.get_all_metrics
mem_storage-Lawful = record {
  IsValid = IsSound;
  gauge_at = λ ms j. get j ms.gauges;
  counter_at = λ ms j. get j ms.counters;
  update_gauge-IsValid = λ id v ms h. Sound.update_gauge-IsSound id v h;
  update_counter-IsValid = λ id d ms h. Sound.update_counter-IsSound id d h;
  update_batch-IsValid = Sound.update_batch-IsSound;
  gauge_at-update_gauge = λ id v ms j. get-put id j v ms.gauges;
  counter_at-update_gauge = λ id v ms j. refl;
  gauge_at-update_counter = λ id d ms j. refl;
  counter_at-update_counter = λ id d ms j. get-put id j _ ms.counters;
  get_gauge_lem = λ id ms. refl;
  get_counter_lem = λ id ms. refl;
  get_all_metrics_lem = λ ms h. (Mem.collect_all ms, refl, λ j. Laws.get-collect_all j ms h.valid);
  gauge_at-update_batch = Laws.gauges-update_batch;
  counter_at-update_batch = Laws.counters-update_batch;
}
