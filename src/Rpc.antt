-- ===== src/Rpc.antt =====
-- internal/grpcserver/server.go and interceptor.go, and what internal/agent/grpc_client.go sends
-- them. The transport is left out; the parsing of networks is a parameter.
pub mod Carried
pub mod Admitted
pub mod Sent
mod Tests
use go_metrics_stas.Prelude.{
  ℕ, String, Option, none, some, Bool, List, [], ◌∷◌, ◌==◌, eqb, if◌then◌else◌,
}
use go_metrics_stas.Model.{Int64, Float64, Metrics, gauge, counter}
use go_metrics_stas.Outcome.{Result, ok, err, failure}
use go_metrics_stas.Repository.{Storage}
use go_metrics_stas.Service
use go_metrics_stas.Middleware.{Net}

-- `pb.Metric`. An enumeration may hold a number without a name.
pub record PbMetric : Type 0 where
  pub id : String
  pub mtype : ℕ
  pub delta : Int64
  pub value : Float64

abbrev pub pb_gauge : ℕ
pb_gauge = 0

abbrev pub pb_counter : ℕ
pb_counter = 1

-- How a call ends.
pub data Status : Type 0 where
  fine : Status
  invalid_argument internal permission_denied : String → Status

-- What a field that is not set holds.
abbrev pub number_or_zero : Option ℕ → ℕ
number_or_zero none = 0
number_or_zero (some n) = n

-- One round of the loop of the client's `SendBatch`.
unfoldable pub to_pb : Metrics → PbMetric
to_pb m =
    if m.mtype == gauge
    then record { id = m.id; mtype = pb_gauge; delta = 0; value = number_or_zero m.value }
    else if m.mtype == counter
    then record { id = m.id; mtype = pb_counter; delta = number_or_zero m.delta; value = 0 }
    else record { id = m.id; mtype = 0; delta = 0; value = 0 }

unfoldable pub to_pb_all : List Metrics → List PbMetric
unfolding to_pb
to_pb_all [] = []
to_pb_all (m ∷ items) = to_pb m ∷ to_pb_all items

-- One round of the loop of `UpdateMetrics`: none for an unknown type.
unfoldable pub of_pb : PbMetric → Option Metrics
of_pb m =
    if eqb m.mtype pb_gauge
    then some (record { id = m.id; mtype = gauge; delta = none; value = some m.value; hash = "" })
    else if eqb m.mtype pb_counter
    then some (record { id = m.id; mtype = counter; delta = some m.delta; value = none; hash = "" })
    else none

unfoldable pub cons_both : Option Metrics → Option (List Metrics) → Option (List Metrics)
cons_both none batch = none
cons_both (some m) none = none
cons_both (some m) (some batch) = some (m ∷ batch)

unfoldable pub of_pb_all : List PbMetric → Option (List Metrics)
unfolding of_pb cons_both
of_pb_all [] = some []
of_pb_all (m ∷ items) = cons_both (of_pb m) (of_pb_all items)

module _ {S : Type 0} where
  unfoldable pub ended : Result (Unit {0}) × S → Status × S
  ended (ok a, s) = (fine, s)
  ended (err e, s) = (internal "update batch", s)

  module _ (repo : Storage S) where
    unfoldable pub update_all : Option (List Metrics) → S → Status × S
    unfolding ended
    update_all none s = (invalid_argument "unknown metric type", s)
    update_all (some batch) s = ended (Service.update_batch repo batch s)

    unfoldable pub update_metrics : List PbMetric → S → Status × S
    unfolding update_all of_pb_all
    update_metrics items s = update_all (of_pb_all items) s

  -- The metadata of a call: the values of "x-real-ip", none if there is no metadata.
  module _ (net : Net) where
    unfoldable pub let_in : net.Subnet → Option net.Ip → (S → Status × S) → S → Status × S
    let_in subnet none handler s = (permission_denied "invalid X-Real-IP", s)
    let_in subnet (some ip) handler s =
        if net.contains subnet ip then handler s else (permission_denied "forbidden", s)

    unfoldable pub intercept : net.Subnet → Option (List String) → (S → Status × S) → S → Status × S
    unfolding let_in
    intercept subnet none handler s = (permission_denied "missing metadata", s)
    intercept subnet (some []) handler s = (permission_denied "missing X-Real-IP", s)
    intercept subnet (some (v ∷ vals)) handler s =
        if v == ""
        then (permission_denied "missing X-Real-IP", s)
        else let_in subnet (net.parse_ip v) handler s

    with_cidr :
        Option net.Subnet → Result (Option (List String) → (S → Status × S) → S → Status × S)
    unfolding intercept
    with_cidr none = err (failure "invalid trusted_subnet CIDR")
    with_cidr (some subnet) = ok (intercept subnet)

    unfoldable pub trusted_subnet_interceptor :
        String → Result (Option (List String) → (S → Status × S) → S → Status × S)
    unfolding with_cidr
    trusted_subnet_interceptor cidr =
        if cidr == "" then ok (λ metadata handler. handler) else with_cidr (net.parse_cidr cidr)
