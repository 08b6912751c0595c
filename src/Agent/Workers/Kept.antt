-- ===== src/Agent/Workers/Kept.antt =====
-- Where the batches are that an agent has accepted.
use mathlib.Core.Path.{subst}
use go_metrics_stas.Prelude.{
  String, ℕ, zero, suc, ◌+◌, ◌≡◌, refl, ap, Bool, List, [], ◌∷◌, ◌++◌, if◌then◌else◌, All, length,
  is_some, Option, none, some, false, arith,
}
use go_metrics_stas.Model.{Int64}
use go_metrics_stas.Agent.Workers.{
  Batch, Worker, sending, Dispatcher, asleep, waiting, reporting, Stopper, stopping, finishing,
  closing, Agent, shutdown, dispatch_metrics, close_jobs, start_workers, begin_run, new_agent,
  idle_workers, collect, put_memory,
}
use go_metrics_stas.Agent.Workers.Moves
use go_metrics_stas.Agent.Workers.Bounds.{Run-Sound}
use go_metrics_stas.Agent.Workers.Sound.{queue, NonEmpty, Placed, Sound}

-- How often a batch that passes the test occurs.
module _ (p : Batch → Bool) where
  abbrev pub one : Batch → ℕ
  one b = if p b then 1 else 0

  abbrev pub count : List Batch → ℕ
  count [] = 0
  count (b ∷ bs) = one b + count bs

  abbrev pub in_worker : Worker → ℕ
  in_worker (sending b) = one b
  in_worker w = 0

  abbrev pub in_workers : List Worker → ℕ
  in_workers [] = 0
  in_workers (w ∷ ws) = in_worker w + in_workers ws

  abbrev pub in_dispatcher : Dispatcher → ℕ
  in_dispatcher (reporting b) = one b
  in_dispatcher d = 0

  abbrev pub in_stopper : Stopper → ℕ
  in_stopper (finishing b) = one b
  in_stopper s = 0

  -- Each accepted batch is in the channel, being sent or tried, as often as it was accepted.
  abbrev pub IsKept : Agent → Type 0
  IsKept a =
      count a.accepted
      ≡ count (queue a.jobs)
        + in_workers a.workers
        + in_dispatcher a.dispatcher
        + in_stopper a.stopper
        + count a.tried

  count-append : (bs cs : List Batch) → count (bs ++ cs) ≡ count bs + count cs
  count-append [] cs = omega arith
  count-append (b ∷ bs) cs = ground (arith, count-append bs cs)

  in_workers-append : (us vs : List Worker) → in_workers (us ++ vs) ≡ in_workers us + in_workers vs
  in_workers-append [] vs = omega arith
  in_workers-append (u ∷ us) vs = omega (arith, in_workers-append us vs)

  in_workers-idle : (n : ℕ) → in_workers (idle_workers n) ≡ 0
  in_workers-idle zero = refl
  in_workers-idle (suc n) = omega (arith, in_workers-idle n)

  Work-count :
      {cancelled closed : Bool} {q q' out : List Batch} {w w' : Worker}
      → All NonEmpty q
      → Moves.Work cancelled closed q w q' w' out
      → count q + in_worker w ≡ count q' + in_worker w' + count out
  Work-count full (Moves.receive {b} {q}) = rw (full.0) (omega arith)
  Work-count full Moves.send = omega arith
  Work-count full (Moves.obey h) = omega arith
  Work-count full (Moves.drain h) = refl

  Working-IsKept :
      {a b : Agent} → All NonEmpty (queue a.jobs) → Moves.Working a b → IsKept a → IsKept b
  Working-IsKept {a} full (Moves.works us vs w w' q q' out e j work) kept =
      let n = Work-count (subst (λ o. All NonEmpty (queue o)) j full) work in
      let m : count (queue a.jobs) ≡ count q = ap (λ o. count (queue o)) j in
      let k : in_workers a.workers ≡ in_workers (us ++ w ∷ vs) = ap in_workers e in
      omega (
        arith,
        in_workers-append us (w ∷ vs),
        in_workers-append us (w' ∷ vs),
        count-append a.tried out,
      )

  dispatch_metrics-IsKept :
      (snapshot : Batch) (a : Agent)
      → a.dispatcher ≡ waiting
      → IsKept a
      → IsKept (dispatch_metrics snapshot a)
  unfolding dispatch_metrics
  dispatch_metrics-IsKept snapshot a e kept =
      let n : in_dispatcher a.dispatcher ≡ 0 = ap in_dispatcher e in
      ground (arith, count-append a.accepted (snapshot ∷ []))

  shutdown-IsKept :
      (snapshot : Batch) (a : Agent)
      → a.stopper ≡ stopping
      → IsKept a
      → IsKept (shutdown snapshot a)
  unfolding shutdown
  shutdown-IsKept snapshot a e kept =
      let n : in_stopper a.stopper ≡ 0 = ap in_stopper e in
      ground (arith, count-append a.accepted (snapshot ∷ []))

  close_jobs-IsKept : (a : Agent) → a.stopper ≡ closing → IsKept a → IsKept (close_jobs a)
  unfolding close_jobs
  close_jobs-IsKept a e kept = let n : in_stopper a.stopper ≡ 0 = ap in_stopper e in ground arith

  in_workers-none : (ws : List Worker) → length ws ≡ 0 → in_workers ws ≡ 0
  in_workers-none [] h = refl
  in_workers-none (w ∷ ws) h = absurd (omega arith)

  count-none : (jobs : Option (List Batch)) → is_some jobs ≡ false → count (queue jobs) ≡ 0
  count-none none h = refl
  count-none (some q) h = absurd (cc)

  begin_run-IsKept : (a : Agent) → a.dispatcher ≡ asleep → Sound a → IsKept a → IsKept (begin_run a)
  unfolding start_workers
  begin_run-IsKept a e s kept =
      let n : in_dispatcher a.dispatcher ≡ 0 = ap in_dispatcher e in
      let none_yet = (subst (λ d. Placed d a.closed a.jobs) e s.1).0 in
      let size = s.0.size in
      let idle = in_workers-none a.workers (ground arith) in
      ground (arith, in_workers-idle a.rate_limit, count-none a.jobs none_yet)

  Step-IsKept :
      {itoa : ℕ → String} {a b : Agent} → Sound a → Moves.Step itoa a b → IsKept a → IsKept b
  unfolding collect put_memory
  Step-IsKept {itoa} {a} s (Moves.begins e) kept = begin_run-IsKept a e s kept
  Step-IsKept s (Moves.collects st random h) kept = kept
  Step-IsKept s (Moves.reads_memory total free h) kept = kept
  Step-IsKept s (Moves.reads_cpus percentages h) kept = kept
  Step-IsKept s (Moves.worker w) kept = Working-IsKept s.0.full w kept
  Step-IsKept {itoa} {a} s (Moves.ticks snapshot e perm) kept =
      dispatch_metrics-IsKept snapshot a e kept
  Step-IsKept {itoa} {a} s (Moves.enqueues b q e j g lt) kept =
      let n : in_dispatcher a.dispatcher ≡ 0 = ap in_dispatcher e in
      let m : count (queue a.jobs) ≡ count q = ap (λ o. count (queue o)) j in
      omega (arith, count-append q (b ∷ []), count-append a.accepted (b ∷ []))
  Step-IsKept s (Moves.panics b e h) kept = let n = ap in_dispatcher e in omega arith
  Step-IsKept s (Moves.gives_up b e h) kept = let n = ap in_dispatcher e in omega arith
  Step-IsKept {itoa} {a} s (Moves.reports b e) kept =
      let n : in_dispatcher a.dispatcher ≡ one b = ap in_dispatcher e in
      omega (arith, count-append a.tried (b ∷ []))
  Step-IsKept s (Moves.leaves e h) kept = let n = ap in_dispatcher e in omega arith
  Step-IsKept s (Moves.cancels e) kept = let n = ap in_stopper e in omega arith
  Step-IsKept {itoa} {a} s (Moves.shuts_down snapshot e perm) kept =
      shutdown-IsKept snapshot a e kept
  Step-IsKept {itoa} {a} s (Moves.sends_last b e) kept =
      let n : in_stopper a.stopper ≡ one b = ap in_stopper e in
      omega (arith, count-append a.tried (b ∷ []))
  Step-IsKept {itoa} {a} s (Moves.closes e) kept = close_jobs-IsKept a e kept
  Step-IsKept s (Moves.joins e all) kept = let n = ap in_stopper e in omega arith

  start-IsKept : (rate_limit : Int64) → IsKept (new_agent rate_limit)
  unfolding new_agent
  start-IsKept rate_limit = refl

-- In every state that an agent can reach, each batch that it has accepted (put into the channel, or
-- handed to sendBatch) is as often in the channel, in a call of the sender or done with (the call has returned, with an error
-- or without) as it was accepted: no batch is handed to the sender twice or dropped on its way through the pool of workers. The test p picks the
-- batches that are counted.
pub Run-IsKept :
    (itoa : ℕ → String) (rate_limit : Int64) (a : Agent)
    → Moves.Run itoa rate_limit a
    → (p : Batch → Bool) → IsKept p a
Run-IsKept itoa rate_limit a Moves.start p = start-IsKept p rate_limit
Run-IsKept itoa rate_limit b (Moves.next {a} run alive step) p =
    Step-IsKept p (Run-Sound run) step (Run-IsKept itoa rate_limit a run p)
