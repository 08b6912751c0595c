-- ===== src/Agent/Workers.antt =====
-- internal/agent/agent.go: the state of an agent, and what its goroutines do to it between two points
-- where they can wait. `strconv.Itoa` is an argument.
pub mod Moves
pub mod Sound
pub mod Bounds
pub mod Limits
pub mod Kept
pub mod Stop
mod Tests
use Prim.Native.String
use go_metrics_stas.Prelude.{
  ℕ, zero, suc, ◌+◌, String, Option, none, some, Bool, true, false, not, ◌&&◌, ◌||◌, List, [], ◌∷◌,
  ◌++◌, eqb, if◌then◌else◌, is_empty, is_some,
}
use go_metrics_stas.Dict.{Dict, put, put_all, values}
use go_metrics_stas.Model.{Int64, Float64, Metrics}
use go_metrics_stas.Repository.Mem.{of_gauge}
use go_metrics_stas.Config.{negative}
use go_metrics_stas.Agent.Collector.{MemStats, collect_metrics}

abbrev pub Batch : Type 0
Batch = List Metrics

-- A goroutine of the pool: at its select, in `SendBatch`, or returned.
pub data Worker : Type 0 where
  idle : Worker
  sending : Batch → Worker
  returned : Worker

-- `dispatchLoop`: not called yet, at its select, at the select of `dispatchMetrics`, in `sendBatch`, returned, or
-- stopped by the panic of a send on a closed channel.
pub data Dispatcher : Type 0 where
  asleep : Dispatcher
  waiting : Dispatcher
  offering : Batch → Dispatcher
  reporting : Batch → Dispatcher
  gone : Dispatcher
  crashed : Dispatcher

-- The OnStop hook: not called yet, after `cancel`, in `sendBatch`, before `close`, in `Wait`, done.
pub data Stopper : Type 0 where
  running : Stopper
  stopping : Stopper
  finishing : Batch → Stopper
  closing : Stopper
  joining : Stopper
  stopped : Stopper

-- `jobs` is the channel with what it holds, none while it is nil. `tried` are the batches
-- for which `SendBatch` has returned, with an error or without, `accepted` those put into the channel or handed to `sendBatch`.
pub record Agent : Type 0 where
  pub rate_limit : ℕ
  pub current : Dict Metrics
  pub poll_count : Int64
  pub jobs : Option (List Batch)
  pub closed : Bool
  pub cancelled : Bool
  pub workers : List Worker
  pub dispatcher : Dispatcher
  pub stopper : Stopper
  pub tried : List Batch
  pub accepted : List Batch

unfoldable pub new_agent : Int64 → Agent
new_agent rate_limit = record {
  rate_limit = if negative rate_limit then 0 else rate_limit;
  current = [];
  poll_count = 0;
  jobs = none;
  closed = false;
  cancelled = false;
  workers = [];
  dispatcher = asleep;
  stopper = running;
  tried = [];
  accepted = [];
}

abbrev pub idle_workers : ℕ → List Worker
idle_workers zero = []
idle_workers (suc n) = idle ∷ idle_workers n

unfoldable pub start_workers : Agent → Agent
start_workers a =
    if eqb a.rate_limit 0
    then a
    else record a { jobs = some []; workers = idle_workers a.rate_limit }

-- `Run` up to its loop, as one step: the goroutines that it starts find the channel.
abbrev pub begin_run : Agent → Agent
begin_run a = record (start_workers a) { dispatcher = waiting }

-- What a worker does with a batch that it has received: an empty one is passed over.
abbrev pub take_job : Batch → Worker
take_job batch = if is_empty batch then idle else sending batch

unfoldable pub collect : MemStats → Float64 → Agent → Agent
unfolding collect_metrics
collect st random a =
    let (metrics, n) = collect_metrics st random a.poll_count in
    record a { current = put_all metrics a.current; poll_count = n }

unfoldable pub put_memory : Float64 → Float64 → Agent → Agent
put_memory total free a = record a {
  current =
      put "FreeMemory" (of_gauge "FreeMemory" free)
        (put "TotalMemory" (of_gauge "TotalMemory" total) a.current);
}

-- The loop over the percentages, from index `i`.
unfoldable pub put_cpus : (ℕ → String) → ℕ → List Float64 → Dict Metrics → Dict Metrics
put_cpus itoa i [] metrics = metrics
put_cpus itoa i (v ∷ percentages) metrics =
    let id = String.◌++◌ "CPUutilization" (itoa (i + 1)) in
    put_cpus itoa (i + 1) percentages (put id (of_gauge id v) metrics)

-- `a.rateLimit > 0 && a.jobs != nil`
abbrev pub has_workers : Agent → Bool
has_workers a = not (eqb a.rate_limit 0) && is_some a.jobs

-- `sendBatch` when it is entered: an empty batch is not sent.
abbrev pub report : Batch → Agent → Agent
report batch a =
    if is_empty batch
    then a
    else record a { dispatcher = reporting batch; accepted = a.accepted ++ batch ∷ [] }

-- `dispatchMetrics` up to its select, with the snapshot it takes.
unfoldable pub dispatch_metrics : Batch → Agent → Agent
dispatch_metrics snapshot a =
    if is_empty a.current
    then a
    else if not (has_workers a)
    then report snapshot a
    else record a { dispatcher = offering snapshot }

abbrev pub report_last : Batch → Agent → Agent
report_last batch a =
    if is_empty batch
    then record a { stopper = closing }
    else record a { stopper = finishing batch; accepted = a.accepted ++ batch ∷ [] }

-- `Shutdown` up to the call of the sender, with the snapshot it takes.
unfoldable pub shutdown : Batch → Agent → Agent
shutdown snapshot a =
    if is_empty a.current then record a { stopper = closing } else report_last snapshot a

unfoldable pub close_jobs : Agent → Agent
close_jobs a =
    if has_workers a
    then record a { closed = true; stopper = joining }
    else record a { stopper = stopped }
