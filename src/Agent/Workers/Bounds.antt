-- ===== src/Agent/Workers/Bounds.antt =====
-- The channel and the pool of workers in every state that an agent can reach.
use mathlib.Core.List.{Perm}
use mathlib.Core.Path.{subst}
use go_metrics_stas.Prelude.{
  String, ℕ, ◌<◌, ◌≡◌, refl, ap, ◌∙◌, Option, some, Bool, true, false, List, [], ◌∷◌, ◌++◌,
  if◌then◌else◌, is_empty, is_some, eqb, All, length, length-append, arith, Bool-cases, inl, inr,
}
use go_metrics_stas.Model.{Int64}
use go_metrics_stas.Dict.{values}
use go_metrics_stas.Agent.Workers.{
  Batch, Worker, Dispatcher, asleep, waiting, offering, reporting, gone, crashed, Stopper, running,
  stopping, finishing, closing, joining, stopped, Agent, shutdown, dispatch_metrics, close_jobs,
  start_workers, begin_run, new_agent, idle_workers, collect, put_memory, has_workers,
}
use go_metrics_stas.Agent.Workers.Moves
use go_metrics_stas.Agent.Workers.Moves.{IsReturned}
use go_metrics_stas.Agent.Workers.Sound.{
  queue, NonEmpty, Placed, Phase, Pool, Sound, All-append, length-idle, values-NonEmpty, no_channel,
  Working-Sound,
}

dispatch_metrics-Sound :
    (snapshot : Batch) (a : Agent)
    → Perm snapshot (values a.current)
    → Sound a
    → Sound (dispatch_metrics snapshot a)
unfolding dispatch_metrics
dispatch_metrics-Sound snapshot a perm s = elim (Bool-cases (is_empty a.current)) [
  | inl e ↦ rw e s
  | inr e ↦
      let n = values-NonEmpty a.current snapshot perm e in
      elim (Bool-cases (has_workers a)) [
        | inl h ↦ rw (e, h) (s.0, n, s.2)
        | inr h ↦ rw (e, h, n) (s.0, no_channel a s.0 h, s.2)
      ]
]

shutdown-Sound :
    (snapshot : Batch) (a : Agent) → a.stopper ≡ stopping → Sound a → Sound (shutdown snapshot a)
unfolding shutdown
shutdown-Sound snapshot a e s =
    let h : Phase stopping a.cancelled a.closed a.workers =
      subst (λ x. Phase x a.cancelled a.closed a.workers) e s.2 in
    elim (Bool-cases (is_empty a.current)) [
      | inl c ↦ rw c (s.0, s.1, h)
      | inr c ↦ elim (Bool-cases (is_empty snapshot)) [
        | inl d ↦ rw (c, d) (s.0, s.1, h)
        | inr d ↦ rw (c, d) (s.0, s.1, h)
      ]
    ]

Placed-closed :
    (d : Dispatcher) (closed : Bool) (jobs : Option (List Batch))
    → is_some jobs ≡ true
    → Placed d closed jobs
    → Placed d true jobs
Placed-closed asleep closed jobs e h = absurd (let z = h.0 in cc)
Placed-closed waiting closed jobs e h = tt
Placed-closed (offering b) closed jobs e h = h
Placed-closed (reporting b) closed jobs e h = h
Placed-closed gone closed jobs e h = tt
Placed-closed crashed closed jobs e h = refl

pub no_workers : (ws : List Worker) → length ws ≡ 0 → All IsReturned ws
no_workers [] h = tt
no_workers (w ∷ ws) h = absurd (omega arith)

close_jobs-Sound : (a : Agent) → a.stopper ≡ closing → Sound a → Sound (close_jobs a)
unfolding close_jobs
close_jobs-Sound a e s =
    let h : Phase closing a.cancelled a.closed a.workers =
      subst (λ x. Phase x a.cancelled a.closed a.workers) e s.2 in
    elim (Bool-cases (has_workers a)) [
      | inl c ↦
          rw c (s.0, Placed-closed a.dispatcher a.closed a.jobs (ground arith) s.1, (h.0, refl))
      | inr c ↦ rw c (s.0, s.1, (h.0, inl h.1))
    ]

enqueue-Pool :
    {rate_limit : ℕ} {jobs : Option (List Batch)} {ws : List Worker} (q : List Batch) (b : Batch)
    → jobs ≡ some q
    → NonEmpty b
    → length q < rate_limit
    → Pool rate_limit jobs ws
    → Pool rate_limit (some (q ++ b ∷ [])) ws
enqueue-Pool {rate_limit} q b j n lt pool = record {
  limited = λ i. pool.limited (ap is_some j);
  room = omega (arith, length-append q (b ∷ []));
  size = pool.size ∙ ap (λ x. if x then rate_limit else 0) (ap is_some j);
  full = All-append NonEmpty q (b ∷ []) (subst (λ o. All NonEmpty (queue o)) j pool.full) (n, tt);
}

-- Where nothing is closed, the workers do not matter.
open-Phase :
    (s : Stopper) (cancelled closed : Bool) (ws ws' : List Worker)
    → closed ≡ false
    → Phase s cancelled closed ws
    → Phase s cancelled closed ws'
open-Phase running cancelled closed ws ws' e h = h
open-Phase stopping cancelled closed ws ws' e h = h
open-Phase (finishing b) cancelled closed ws ws' e h = h
open-Phase closing cancelled closed ws ws' e h = h
open-Phase joining cancelled closed ws ws' e h = h
open-Phase stopped cancelled closed ws ws' e h = (h.0, inl e)

begin_run-Sound : (a : Agent) → a.dispatcher ≡ asleep → Sound a → Sound (begin_run a)
unfolding start_workers
begin_run-Sound a e s =
    let none_yet = subst (λ d. Placed d a.closed a.jobs) e s.1 in
    elim (Bool-cases (eqb a.rate_limit 0)) [
      | inl z ↦ rw z (s.0, tt, s.2)
      | inr z ↦ rw z (
        record { limited = λ i. z; room = omega arith; size = length-idle a.rate_limit; full = tt },
        tt,
        open-Phase a.stopper a.cancelled a.closed a.workers (idle_workers a.rate_limit) none_yet.1
            s.2,
      )
    ]

Step-Sound : {itoa : ℕ → String} {a b : Agent} → Moves.Step itoa a b → Sound a → Sound b
unfolding collect put_memory
Step-Sound {itoa} {a} (Moves.begins e) s = begin_run-Sound a e s
Step-Sound (Moves.collects st random h) s = s
Step-Sound (Moves.reads_memory total free h) s = s
Step-Sound (Moves.reads_cpus percentages h) s = s
Step-Sound (Moves.worker w) s = Working-Sound w s
Step-Sound {itoa} {a} (Moves.ticks snapshot e perm) s = dispatch_metrics-Sound snapshot a perm s
Step-Sound {itoa} {a} (Moves.enqueues b q e j g lt) s =
    (enqueue-Pool q b j (subst (λ d. Placed d a.closed a.jobs) e s.1) lt s.0, tt, s.2)
Step-Sound (Moves.panics b e h) s = (s.0, h, s.2)
Step-Sound (Moves.gives_up b e h) s = (s.0, tt, s.2)
Step-Sound (Moves.reports b e) s = (s.0, tt, s.2)
Step-Sound (Moves.leaves e h) s = (s.0, tt, s.2)
Step-Sound {itoa} {a} (Moves.cancels e) s =
    (s.0, s.1, (refl, subst (λ x. Phase x a.cancelled a.closed a.workers) e s.2))
Step-Sound {itoa} {a} (Moves.shuts_down snapshot e perm) s = shutdown-Sound snapshot a e s
Step-Sound {itoa} {a} (Moves.sends_last b e) s =
    (s.0, s.1, subst (λ x. Phase x a.cancelled a.closed a.workers) e s.2)
Step-Sound {itoa} {a} (Moves.closes e) s = close_jobs-Sound a e s
Step-Sound {itoa} {a} (Moves.joins e all) s =
    (s.0, s.1, ((subst (λ x. Phase x a.cancelled a.closed a.workers) e s.2).0, inr all))

start-Sound : (rate_limit : Int64) → Sound (new_agent rate_limit)
unfolding new_agent
start-Sound rate_limit = (
  record { limited = λ i. absurd (cc); room = omega arith; size = refl; full = tt },
  (refl, refl),
  refl,
)

pub Run-Sound :
    {itoa : ℕ → String} {rate_limit : Int64} {a : Agent} → Moves.Run itoa rate_limit a → Sound a
Run-Sound {itoa} {rate_limit} Moves.start = start-Sound rate_limit
Run-Sound (Moves.next run alive step) = Step-Sound step (Run-Sound run)
