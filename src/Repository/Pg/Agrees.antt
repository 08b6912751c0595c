-- ===== src/Repository/Pg/Agrees.antt =====
-- Where no sum leaves the range of a BIGINT, the checked sums are those of `MemStorage`.
use mathlib.Core.Option.{some-injective}
use go_metrics_stas.Prelude.{
  String, ◌≡◌, refl, sym, ◌∙◌, Option, none, some, List, [], ◌∷◌, ◌==◌, All, arith, Bool-cases,
  Option-cases, inl, inr,
}
use go_metrics_stas.Dict.{get}
use go_metrics_stas.Model.{Int64, Metrics, gauge, counter, add_int64}
use go_metrics_stas.Outcome.{ok}
use go_metrics_stas.Repository.Mem
use go_metrics_stas.Repository.Mem.{MemStorage, or_zero}
use go_metrics_stas.Repository.Mem.Lawfulness.{mem_storage}
use go_metrics_stas.Repository.Pg.{Db, add_bigint}
use go_metrics_stas.Repository.Pg.Checked.{
  add_checked, checked_counter, checked_delta, checked_item, then_checked, checked_items,
}
use go_metrics_stas.Repository.Pg.Refines.{
  checked_update_counter, checked_update_batch, counter_or, batch_or, checked_storage, Call,
  gauge_set, counter_add, gauge_of, counter_of, batch, answer, answers, CallFits, Simulates,
  answers-Simulates, pg_storage,
}

-- No sum of the call leaves the range of a BIGINT.
abbrev pub CallInRange : Call → MemStorage → Type 0
CallInRange (gauge_set id v) ms = Unit
CallInRange (counter_add id d) ms =
    (t : Int64) × (add_bigint (or_zero (get id ms.counters)) d ≡ some t)
CallInRange (gauge_of id) ms = Unit
CallInRange (counter_of id) ms = Unit
CallInRange (batch items) ms = (out : MemStorage) × (checked_items items ms ≡ some out)

abbrev pub InRange : List Call → MemStorage → Type 0
InRange [] ms = Unit
InRange (c ∷ calls) ms = CallInRange c ms × InRange calls (answer mem_storage c ms).1

add_bigint-some : (a d t : Int64) → add_bigint a d ≡ some t → t ≡ add_int64 a d
unfolding add_bigint
add_bigint-some a d t h = ground arith

add_checked-some :
    (id : String) (d : Int64) (o : Option Int64) (ms out : MemStorage)
    → add_bigint (or_zero (get id ms.counters)) d ≡ o
    → add_checked id o ms ≡ some out
    → out ≡ Mem.update_counter id d ms
unfolding add_checked Mem.update_counter
add_checked-some id d none ms out e h = ground arith
add_checked-some id d (some t) ms out e h =
    let s = add_bigint-some (or_zero (get id ms.counters)) d t e in
    rw (← s) (sym (some-injective _ _ h))

delta-some :
    (id : String) (o : Option Int64) (ms out : MemStorage)
    → checked_delta id o ms ≡ some out
    → out ≡ Mem.add_counter id o ms
unfolding checked_delta Mem.add_counter checked_counter
delta-some id none ms out h = sym (some-injective _ _ h)
delta-some id (some d) ms out h = add_checked-some id d _ ms out refl h

item-some :
    (m : Metrics) (ms out : MemStorage) → checked_item m ms ≡ some out → out ≡ Mem.apply_item m ms
unfolding checked_item Mem.apply_item
item-some m ms out h = elim (Bool-cases (m.mtype == gauge)) [
  | inl a ↦ rw a (sym (some-injective _ _ (rw a at h)))
  | inr a ↦ elim (Bool-cases (m.mtype == counter)) [
    | inl b ↦ rw (a, b) (delta-some m.id m.delta ms out (rw (a, b) at h))
    | inr b ↦ rw (a, b) (sym (some-injective _ _ (rw (a, b) at h)))
  ]
]

items-some :
    (items : List Metrics) (ms out : MemStorage)
    → checked_items items ms ≡ some out
    → out ≡ Mem.apply_items items ms
unfolding checked_items Mem.apply_items then_checked
items-some [] ms out h = sym (some-injective _ _ h)
items-some (m ∷ items) ms out h = elim (Option-cases (checked_item m ms)) [
  | inl e ↦ ground (arith, h, e)
  | inr (next, e) ↦ rw (← item-some m ms next e) (items-some items next out (rw e at h))
]

update_batch-apply_items :
    (items : List Metrics) (ms : MemStorage)
    → Mem.update_batch items ms ≡ (ok tt, Mem.apply_items items ms)
unfolding Mem.update_batch Mem.apply_items
update_batch-apply_items [] ms = refl
update_batch-apply_items (m ∷ items) ms = refl

checked_update_counter-some :
    (id : String) (d t : Int64) (ms : MemStorage)
    → add_bigint (or_zero (get id ms.counters)) d ≡ some t
    → checked_update_counter id d ms ≡ Mem.update_counter id d ms
unfolding checked_update_counter counter_or checked_counter add_checked Mem.update_counter
checked_update_counter-some id d t ms h =
    rw (h, ← add_bigint-some (or_zero (get id ms.counters)) d t h) refl

checked_update_batch-some :
    (items : List Metrics) (ms out : MemStorage)
    → checked_items items ms ≡ some out
    → checked_update_batch items ms ≡ Mem.update_batch items ms
unfolding checked_update_batch batch_or
checked_update_batch-some items ms out h =
    rw (h, update_batch-apply_items items ms, ← items-some items ms out h) refl

answer-InRange :
    (c : Call) (ms : MemStorage)
    → CallInRange c ms
    → answer checked_storage c ms ≡ answer mem_storage c ms
unfolding answer
answer-InRange (gauge_set id v) ms h = refl
answer-InRange (counter_add id d) ms (t, h) = rw (checked_update_counter-some id d t ms h) refl
answer-InRange (gauge_of id) ms h = refl
answer-InRange (counter_of id) ms h = refl
answer-InRange (batch items) ms (out, h) = rw (checked_update_batch-some items ms out h) refl

answers-checked :
    (calls : List Call) (ms : MemStorage)
    → InRange calls ms
    → answers checked_storage calls ms ≡ answers mem_storage calls ms
unfolding answers
answers-checked [] ms h = refl
answers-checked (c ∷ calls) ms (h, hs) =
    rw (answer-InRange c ms h, answers-checked calls (answer mem_storage c ms).1 hs) refl

-- Where moreover no sum leaves the range of a BIGINT, the answers are those of `MemStorage`.
pub answers-InRange :
    (calls : List Call) (db : Db) (ms : MemStorage)
    → All CallFits calls
    → InRange calls ms
    → Simulates db ms
    → answers pg_storage calls db ≡ answers mem_storage calls ms
answers-InRange calls db ms f r h = answers-Simulates calls db ms f h ∙ answers-checked calls ms r
