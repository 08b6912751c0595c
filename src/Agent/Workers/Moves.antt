-- ===== src/Agent/Workers/Moves.antt =====
-- The steps of an agent's goroutines, in any order that the scheduler and the selects allow. A range
-- over a map gives its values in any order.
use mathlib.Core.List.{Perm}
use go_metrics_stas.Prelude.{
  ℕ, ◌<◌, ◌≡◌, String, some, Bool, true, false, List, [], ◌∷◌, ◌++◌, length, All,
}
use go_metrics_stas.Dict.{values}
use go_metrics_stas.Model.{Float64}
use go_metrics_stas.Agent.Collector.{MemStats}
use go_metrics_stas.Agent.Workers.{
  Batch, Worker, idle, sending, returned, asleep, waiting, offering, reporting, gone, crashed,
  running, stopping, finishing, closing, joining, stopped, Agent, new_agent, begin_run, take_job,
  collect, put_memory, put_cpus, dispatch_metrics, shutdown, close_jobs,
}
use go_metrics_stas.Model.{Int64}

-- A worker's step on the channel: what the channel holds and where the worker is, before and after,
-- and the batch for which `SendBatch` returns.
pub data Work (cancelled closed : Bool)
    : List Batch → Worker → List Batch → Worker → List Batch → Type 0 where
  receive : {b : Batch} {q : List Batch} → Work cancelled closed (b ∷ q) idle q (take_job b) []
  send : {b : Batch} {q : List Batch} → Work cancelled closed q (sending b) q idle (b ∷ [])
  obey : {q : List Batch} → cancelled ≡ true → Work cancelled closed q idle q returned []
  drain : closed ≡ true → Work cancelled closed [] idle [] returned []

-- One worker, among those before it and those behind it, makes a step.
pub data Working : Agent → Agent → Type 0 where
  works :
      {a : Agent} (us vs : List Worker) (w w' : Worker) (q q' out : List Batch)
      → a.workers ≡ us ++ w ∷ vs
      → a.jobs ≡ some q
      → Work a.cancelled a.closed q w q' w' out
      → Working a (record a { jobs = some q'; workers = us ++ w' ∷ vs; tried = a.tried ++ out })

abbrev pub IsReturned : Worker → Type 0
IsReturned w = w ≡ returned

module _ (itoa : ℕ → String) where
  pub data Step : Agent → Agent → Type 0 where
    begins : {a : Agent} → a.dispatcher ≡ asleep → Step a (begin_run a)
    collects :
        {a : Agent} (st : MemStats) (random : Float64)
        → ¬ (a.dispatcher ≡ asleep)
        → Step a (collect st random a)
    reads_memory :
        {a : Agent} (total free : Float64)
        → ¬ (a.dispatcher ≡ asleep)
        → Step a (put_memory total free a)
    reads_cpus :
        {a : Agent} (percentages : List Float64)
        → ¬ (a.dispatcher ≡ asleep)
        → Step a (record a { current = put_cpus itoa 0 percentages a.current })
    worker : {a b : Agent} → Working a b → Step a b
    ticks :
        {a : Agent} (snapshot : Batch)
        → a.dispatcher ≡ waiting
        → Perm snapshot (values a.current)
        → Step a (dispatch_metrics snapshot a)
    enqueues :
        {a : Agent} (b : Batch) (q : List Batch)
        → a.dispatcher ≡ offering b
        → a.jobs ≡ some q
        → a.closed ≡ false
        → length q < a.rate_limit
        → Step a (record a {
          jobs = some (q ++ b ∷ []);
          dispatcher = waiting;
          accepted = a.accepted ++ b ∷ [];
        })
    panics :
        {a : Agent} (b : Batch)
        → a.dispatcher ≡ offering b
        → a.closed ≡ true
        → Step a (record a { dispatcher = crashed })
    gives_up :
        {a : Agent} (b : Batch)
        → a.dispatcher ≡ offering b
        → a.cancelled ≡ true
        → Step a (record a { dispatcher = waiting })
    reports :
        {a : Agent} (b : Batch)
        → a.dispatcher ≡ reporting b
        → Step a (record a { dispatcher = waiting; tried = a.tried ++ b ∷ [] })
    leaves :
        {a : Agent}
        → a.dispatcher ≡ waiting
        → a.cancelled ≡ true
        → Step a (record a { dispatcher = gone })
    cancels :
        {a : Agent}
        → a.stopper ≡ running
        → Step a (record a { cancelled = true; stopper = stopping })
    shuts_down :
        {a : Agent} (snapshot : Batch)
        → a.stopper ≡ stopping
        → Perm snapshot (values a.current)
        → Step a (shutdown snapshot a)
    sends_last :
        {a : Agent} (b : Batch)
        → a.stopper ≡ finishing b
        → Step a (record a { stopper = closing; tried = a.tried ++ b ∷ [] })
    closes : {a : Agent} → a.stopper ≡ closing → Step a (close_jobs a)
    joins :
        {a : Agent}
        → a.stopper ≡ joining
        → All IsReturned a.workers
        → Step a (record a { stopper = stopped })

  -- A run from a new agent: OnStop may come before `Run`, which is a goroutine of its own. A panic
  -- ends a run.
  pub data Run (rate_limit : Int64) : Agent → Type 0 where
    start : Run rate_limit (new_agent rate_limit)
    next :
        {a b : Agent} → Run rate_limit a → ¬ (a.dispatcher ≡ crashed) → Step a b → Run rate_limit b
