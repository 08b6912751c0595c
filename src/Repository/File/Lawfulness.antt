-- ===== src/Repository/File/Lawfulness.antt =====
-- `fileBackedStorage` is a lawful `Storage`, however its saves end.
use go_metrics_stas.Prelude.{refl, ap, ◌∙◌}
use go_metrics_stas.Dict.{get}
use go_metrics_stas.Dict.Laws.{get-put}
use go_metrics_stas.Repository.Lawful.{Lawful}
use go_metrics_stas.Repository.Mem
use go_metrics_stas.Repository.Mem.{MemStorage}
use go_metrics_stas.Repository.Mem.Laws.{
  get-collect_all, gauges-update_batch, counters-update_batch,
}
use go_metrics_stas.Repository.Mem.Sound.{
  IsSound, update_gauge-IsSound, update_counter-IsSound, update_batch-IsSound,
}
use go_metrics_stas.Repository.File.{Codec, file_storage}
use go_metrics_stas.Repository.File.Memory.{mem-update_gauge, mem-update_counter, mem-update_batch}

pub file_storage-Lawful : (codec : Codec) → Lawful (file_storage codec)
unfolding Mem.update_gauge Mem.update_counter Mem.get_gauge Mem.get_counter Mem.get_all_metrics
file_storage-Lawful codec = record {
  IsValid = λ s. IsSound s.mem;
  gauge_at = λ s j. get j s.mem.gauges;
  counter_at = λ s j. get j s.mem.counters;
  update_gauge-IsValid =
      λ id v s h. rw (mem-update_gauge codec id v s) (update_gauge-IsSound id v h);
  update_counter-IsValid =
      λ id d s h. rw (mem-update_counter codec id d s) (update_counter-IsSound id d h);
  update_batch-IsValid =
      λ items s h. rw (mem-update_batch codec items s) (update_batch-IsSound items s.mem h);
  gauge_at-update_gauge = λ id v s j.
      ap (λ (m : MemStorage). get j m.gauges) (mem-update_gauge codec id v s)
      ∙ get-put id j v s.mem.gauges;
  counter_at-update_gauge =
      λ id v s j. ap (λ (m : MemStorage). get j m.counters) (mem-update_gauge codec id v s);
  gauge_at-update_counter =
      λ id d s j. ap (λ (m : MemStorage). get j m.gauges) (mem-update_counter codec id d s);
  counter_at-update_counter = λ id d s j.
      ap (λ (m : MemStorage). get j m.counters) (mem-update_counter codec id d s)
      ∙ get-put id j _ s.mem.counters;
  get_gauge_lem = λ id s. refl;
  get_counter_lem = λ id s. refl;
  get_all_metrics_lem = λ s h. (Mem.collect_all s.mem, refl, λ j. get-collect_all j s.mem h.valid);
  gauge_at-update_batch = λ items s j.
      ap (λ (m : MemStorage). get j m.gauges) (mem-update_batch codec items s)
      ∙ gauges-update_batch items s.mem j;
  counter_at-update_batch = λ items s j.
      ap (λ (m : MemStorage). get j m.counters) (mem-update_batch codec items s)
      ∙ counters-update_batch items s.mem j;
}
