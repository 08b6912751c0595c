-- ===== src/Rpc/Carried.antt =====
-- What a batch becomes on its way through gRPC.
use go_metrics_stas.Prelude.{
  ◌≡◌, refl, some, List, [], ◌∷◌, ◌==◌, if◌then◌else◌, map, Bool-cases, inl, inr,
}
use go_metrics_stas.Model.{Metrics, gauge, counter}
use go_metrics_stas.Repository.{Storage}
use go_metrics_stas.Repository.Mem.{of_gauge, of_counter}
use go_metrics_stas.Service
use go_metrics_stas.Rpc.{
  to_pb, to_pb_all, of_pb, of_pb_all, cons_both, number_or_zero, ended, update_all, update_metrics,
}

-- A metric as it arrives: a number that is missing is 0, and an unknown type is a gauge of 0.
abbrev pub carried : Metrics → Metrics
carried m =
    if m.mtype == gauge
    then of_gauge m.id (number_or_zero m.value)
    else if m.mtype == counter
    then of_counter m.id (number_or_zero m.delta)
    else of_gauge m.id 0

of_pb-to_pb : (m : Metrics) → of_pb (to_pb m) ≡ some (carried m)
unfolding of_pb to_pb
of_pb-to_pb m = elim (Bool-cases (m.mtype == gauge)) [
  | inl a ↦ rw a refl
  | inr a ↦ elim (Bool-cases (m.mtype == counter)) [
    | inl b ↦ rw (a, b) refl
    | inr b ↦ rw (a, b) refl
  ]
]

of_pb_all-to_pb_all :
    (items : List Metrics) → of_pb_all (to_pb_all items) ≡ some (map carried items)
unfolding of_pb_all to_pb_all cons_both
of_pb_all-to_pb_all [] = refl
of_pb_all-to_pb_all (m ∷ items) = rw (of_pb-to_pb m, of_pb_all-to_pb_all items) refl

-- A batch that the agent sends over gRPC is decoded by the server whatever it holds, and handed to the
-- service as that batch, except that a missing number arrives as 0 and an unknown type as a gauge of
-- 0; the call ends well if the service returns no error, and as an internal error if it does.
pub update_metrics-to_pb_all :
    {S : Type 0} (repo : Storage S) (items : List Metrics) (s : S)
    → update_metrics repo (to_pb_all items) s
      ≡ ended (Service.update_batch repo (map carried items) s)
unfolding update_metrics update_all
update_metrics-to_pb_all repo items s = rw (of_pb_all-to_pb_all items) refl
