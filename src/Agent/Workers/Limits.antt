-- ===== src/Agent/Workers/Limits.antt =====
-- What the rate limit bounds, and when the dispatcher can panic.
use mathlib.Core.Path.{subst}
use go_metrics_stas.Prelude.{
  String, ℕ, suc, ◌≤◌, ◌≡◌, refl, ◌∙◌, Bool, true, false, List, [], ◌∷◌, if◌then◌else◌, All, length,
  arith, inl, inr, ◌⊎◌, ◌+◌, eqb, is_some, Option,
}
use go_metrics_stas.Model.{Int64}
use go_metrics_stas.Config.{negative}
use go_metrics_stas.Agent.Workers.{
  Batch, Worker, idle, sending, returned, Dispatcher, asleep, waiting, offering, reporting, gone,
  crashed, Stopper, running, stopping, finishing, closing, joining, stopped, Agent, shutdown,
  dispatch_metrics, close_jobs, start_workers, new_agent, collect, put_memory,
}
use go_metrics_stas.Agent.Workers.Moves
use go_metrics_stas.Agent.Workers.Bounds.{Run-Sound}
use go_metrics_stas.Agent.Workers.Sound.{queue, NonEmpty, Placed, Phase}

-- How many calls of `SendBatch` the workers are in.
abbrev pub busy : List Worker → ℕ
busy [] = 0
busy (sending b ∷ ws) = suc (busy ws)
busy (w ∷ ws) = busy ws

busy-le : (ws : List Worker) → busy ws ≤ length ws
busy-le [] = omega arith
busy-le (idle ∷ ws) = omega (arith, busy-le ws)
busy-le (sending b ∷ ws) = omega (arith, busy-le ws)
busy-le (returned ∷ ws) = omega (arith, busy-le ws)

cancelled_or_open :
    (s : Stopper) (cancelled closed : Bool) (ws : List Worker)
    → Phase s cancelled closed ws
    → (cancelled ≡ true) ⊎ (closed ≡ false)
cancelled_or_open running cancelled closed ws h = inr h
cancelled_or_open stopping cancelled closed ws h = inl h.0
cancelled_or_open (finishing b) cancelled closed ws h = inl h.0
cancelled_or_open closing cancelled closed ws h = inl h.0
cancelled_or_open joining cancelled closed ws h = inl h.0
cancelled_or_open stopped cancelled closed ws h = inl h.0

closed_or_sane :
    (d : Dispatcher) (closed : Bool) (jobs : Option (List Batch))
    → Placed d closed jobs
    → (closed ≡ true) ⊎ ¬ (d ≡ crashed)
closed_or_sane crashed closed jobs h = inl h
closed_or_sane asleep closed jobs h = inr (λ e. cc)
closed_or_sane waiting closed jobs h = inr (λ e. cc)
closed_or_sane (offering b) closed jobs h = inr (λ e. cc)
closed_or_sane (reporting b) closed jobs h = inr (λ e. cc)
closed_or_sane gone closed jobs h = inr (λ e. cc)

-- The call of the sender that the dispatcher is in, and that of Shutdown.
abbrev pub by_dispatcher : Dispatcher → ℕ
by_dispatcher (reporting b) = 1
by_dispatcher d = 0

abbrev pub by_stopper : Stopper → ℕ
by_stopper (finishing b) = 1
by_stopper s = 0

-- How many calls of the sender an agent is in.
abbrev pub calls : Agent → ℕ
calls a = busy a.workers + by_dispatcher a.dispatcher + by_stopper a.stopper

-- Without a limit the dispatcher makes the calls, one at a time.
abbrev pub at_once : ℕ → ℕ
at_once n = if eqb n 0 then 1 else n

by_stopper-le : (s : Stopper) → by_stopper s ≤ 1
by_stopper-le (finishing b) = omega arith
by_stopper-le running = omega arith
by_stopper-le stopping = omega arith
by_stopper-le closing = omega arith
by_stopper-le joining = omega arith
by_stopper-le stopped = omega arith

-- The dispatcher makes no call where there are workers.
by_dispatcher-le :
    (d : Dispatcher) (closed : Bool) (jobs : Option (List Batch)) (n busy_ones : ℕ)
    → Placed d closed jobs
    → busy_ones ≤ (if is_some jobs then n else 0)
    → busy_ones + by_dispatcher d ≤ at_once n
by_dispatcher-le (reporting b) closed jobs n busy_ones h le = ground arith
by_dispatcher-le crashed closed jobs n busy_ones h le = ground arith
by_dispatcher-le asleep closed jobs n busy_ones h le = ground arith
by_dispatcher-le waiting closed jobs n busy_ones h le = ground arith
by_dispatcher-le (offering b) closed jobs n busy_ones h le = ground arith
by_dispatcher-le gone closed jobs n busy_ones h le = ground arith

-- The limit that `NewAgent` makes of its argument.
abbrev pub limit : Int64 → ℕ
limit rate_limit = if negative rate_limit then 0 else rate_limit

Step-rate_limit :
    {itoa : ℕ → String} {a b : Agent} → Moves.Step itoa a b → b.rate_limit ≡ a.rate_limit
unfolding collect put_memory dispatch_metrics shutdown close_jobs start_workers
Step-rate_limit {itoa} {a} (Moves.begins e) = ground arith
Step-rate_limit (Moves.worker (Moves.works us vs w w' q q' out e j work)) = refl
Step-rate_limit {itoa} {a} (Moves.ticks snapshot e perm) = ground arith
Step-rate_limit {itoa} {a} (Moves.shuts_down snapshot e perm) = ground arith
Step-rate_limit {itoa} {a} (Moves.closes e) = ground arith
Step-rate_limit step = refl

Run-rate_limit :
    {itoa : ℕ → String} {rate_limit : Int64} {a : Agent}
    → Moves.Run itoa rate_limit a
    → a.rate_limit ≡ limit rate_limit
unfolding new_agent
Run-rate_limit Moves.start = refl
Run-rate_limit (Moves.next run alive step) = Step-rate_limit step ∙ Run-rate_limit run

-- In every state that an agent can reach, the channel holds no more batches than the rate limit (0 for
-- a negative one), and no batch in it is empty. The workers and the dispatcher together are in no more
-- calls of the sender at once than the rate limit, or than one if that is 0; with the last call that
-- Shutdown makes there is at most one more. The dispatcher has panicked only if the channel is closed,
-- which it is only after the context was cancelled.
pub Run-bounds :
    (itoa : ℕ → String) (rate_limit : Int64) (a : Agent)
    → Moves.Run itoa rate_limit a
    → (length (queue a.jobs) ≤ limit rate_limit)
      × (busy a.workers + by_dispatcher a.dispatcher ≤ at_once (limit rate_limit))
      × (calls a ≤ at_once (limit rate_limit) + 1)
      × All NonEmpty (queue a.jobs)
      × ((a.closed ≡ true) ⊎ ¬ (a.dispatcher ≡ crashed))
      × ((a.cancelled ≡ true) ⊎ (a.closed ≡ false))
Run-bounds itoa rate_limit a run =
    let (pool, placed, phase) = Run-Sound run in
    let size = pool.size in
    let room = pool.room in
    let same = Run-rate_limit run in
    let le : busy a.workers ≤ (if is_some a.jobs then a.rate_limit else 0) =
      omega (arith, busy-le a.workers) in
    let most : busy a.workers + by_dispatcher a.dispatcher ≤ at_once (limit rate_limit) =
      subst (λ n. busy a.workers + by_dispatcher a.dispatcher ≤ at_once n) same
        (by_dispatcher-le a.dispatcher a.closed a.jobs a.rate_limit (busy a.workers) placed le) in
    (
      omega arith,
      most,
      omega (arith, by_stopper-le a.stopper),
      pool.full,
      closed_or_sane a.dispatcher a.closed a.jobs placed,
      cancelled_or_open a.stopper a.cancelled a.closed a.workers phase,
    )
