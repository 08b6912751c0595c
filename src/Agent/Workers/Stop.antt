-- ===== src/Agent/Workers/Stop.antt =====
-- How an agent stops: what its workers do once the channel is closed.
use mathlib.Core.Path.{subst}
use mathlib.Core.List.{append_assoc}
use go_metrics_stas.Prelude.{
  String, ℕ, zero, suc, ◌+◌, ◌*◌, ◌≤◌, ◌≡◌, refl, sym, ap, ◌∙◌, none, some, Bool, true, List, [],
  ◌∷◌, ◌++◌, All, length, arith, Option-cases, Bool-cases, Option, eqb, false, ◌⊎◌, inl, inr,
}
use go_metrics_stas.Model.{Int64}
use go_metrics_stas.Agent.Workers.{
  Batch, Worker, idle, sending, returned, joining, stopped, Agent, take_job,
}
use go_metrics_stas.Agent.Workers.Moves
use go_metrics_stas.Agent.Workers.Moves.{
  IsReturned, Working, Work, works, receive, send, obey, drain,
}
use go_metrics_stas.Agent.Workers.Bounds.{no_workers, Run-Sound}
use go_metrics_stas.Agent.Workers.Sound.{queue, Phase, Pool}
use go_metrics_stas.Agent.Workers.Kept.{
  count, in_worker, in_workers, in_dispatcher, in_stopper, Run-IsKept,
}

-- A number of steps of the workers.
pub data Works : ℕ → Agent → Agent → Type 0 where
  rest : {a : Agent} → Works 0 a a
  then : {n : ℕ} {a b c : Agent} → Working a b → Works n b c → Works (suc n) a c

abbrev pub effort : Worker → ℕ
effort idle = 1
effort (sending b) = 2
effort returned = 0

abbrev pub efforts : List Worker → ℕ
efforts [] = 0
efforts (w ∷ ws) = effort w + efforts ws

-- What is left to do for the workers.
abbrev pub load : Agent → ℕ
load a = 2 * length (queue a.jobs) + efforts a.workers

efforts-append : (us vs : List Worker) → efforts (us ++ vs) ≡ efforts us + efforts vs
efforts-append [] vs = omega arith
efforts-append (u ∷ us) vs = omega (arith, efforts-append us vs)

effort-take_job : (b : Batch) → effort (take_job b) ≤ 2
effort-take_job b = ground arith

Work-load :
    {cancelled closed : Bool} {q q' out : List Batch} {w w' : Worker}
    → Work cancelled closed q w q' w' out
    → 2 * length q' + effort w' + 1 ≤ 2 * length q + effort w
Work-load (receive {b}) = omega (arith, effort-take_job b)
Work-load send = omega arith
Work-load (obey h) = omega arith
Work-load (drain h) = omega arith

Working-load : {a b : Agent} → Working a b → load b + 1 ≤ load a
Working-load {a} (works us vs w w' q q' out e j work) =
    let m : length (queue a.jobs) ≡ length q = ap (λ o. length (queue o)) j in
    let n : efforts a.workers ≡ efforts (us ++ w ∷ vs) = ap efforts e in
    omega (arith, Work-load work, efforts-append us (w ∷ vs), efforts-append us (w' ∷ vs))

Works-load : {n : ℕ} {a b : Agent} → Works n a b → n + load b ≤ load a
Works-load rest = omega arith
Works-load (then w ws) = omega (arith, Working-load w, Works-load ws)

-- A channel that is there and closed stays so.
abbrev pub IsClosed : Agent → Type 0
IsClosed a = (a.closed ≡ true) × ((q : List Batch) × (a.jobs ≡ some q))

Working-IsClosed : {a b : Agent} → Working a b → IsClosed a → IsClosed b
Working-IsClosed (works us vs w w' q q' out e j work) h = (h.0, (q', refl))

Works-IsClosed : {n : ℕ} {a b : Agent} → Works n a b → IsClosed a → IsClosed b
Works-IsClosed rest h = h
Works-IsClosed (then w ws) h = Works-IsClosed ws (Working-IsClosed w h)

-- A worker that has not returned can make a step on a closed channel.
abbrev CanStep : Agent → Type 0
CanStep a = (b : Agent) × Working a b

CanStep-worker :
    (a : Agent) (us vs : List Worker) (w : Worker) (q : List Batch)
    → a.workers ≡ us ++ w ∷ vs
    → a.jobs ≡ some q
    → a.closed ≡ true
    → (w ≡ returned) ⊎ CanStep a
CanStep-worker a us vs returned q e j h = inl refl
CanStep-worker a us vs (sending b) q e j h =
    inr (_, works us vs (sending b) idle q q (b ∷ []) e j send)
CanStep-worker a us vs idle [] e j h = inr (_, works us vs idle returned [] [] [] e j (drain h))
CanStep-worker a us vs idle (b ∷ q) e j h =
    inr (_, works us vs idle (take_job b) (b ∷ q) q [] e j receive)

CanStep-workers :
    (a : Agent) (us vs : List Worker) (q : List Batch)
    → a.workers ≡ us ++ vs
    → a.jobs ≡ some q
    → a.closed ≡ true
    → All IsReturned vs ⊎ CanStep a
CanStep-workers a us [] q e j h = inl tt
CanStep-workers a us (w ∷ vs) q e j h = elim (CanStep-worker a us vs w q e j h) [
  | inr x ↦ inr x
  | inl r ↦
      elim (CanStep-workers a (us ++ w ∷ []) vs q (e ∙ sym (append_assoc us (w ∷ []) vs)) j h) [
        | inl all ↦ inl (r, all)
        | inr x ↦ inr x
      ]
]

finish :
    (fuel : ℕ) (a : Agent)
    → load a ≤ fuel
    → IsClosed a
    → (n : ℕ) × ((b : Agent) × Works n a b × All IsReturned b.workers)
finish zero a le (c, (q, j)) = elim (CanStep-workers a [] a.workers q refl j c) [
  | inl all ↦ (0, (a, rest, all))
  | inr (b, w) ↦ absurd (omega (arith, le, Working-load w))
]
finish (suc fuel) a le (c, (q, j)) = elim (CanStep-workers a [] a.workers q refl j c) [
  | inl all ↦ (0, (a, rest, all))
  | inr (b, w) ↦
      let (n, (d, ws, all)) =
        finish fuel b (omega (arith, Working-load w)) (Working-IsClosed w (c, (q, j))) in
      (suc n, (d, then w ws, all))
]

-- No channel, no steps.
Works-rest : {n : ℕ} {a b : Agent} → Works n a b → a.jobs ≡ none → (a ≡ b) × (n ≡ 0)
Works-rest rest e = (refl, refl)
Works-rest (then (works us vs w w' q q' out f j work) ws) e = absurd (cc)

-- While Shutdown waits for the workers, any steps that they have made, n of them, can be continued
-- until all of them have returned, and from the start of the wait they make at most as many steps
-- altogether as are left to do: two for each batch in the channel and for each call of the sender, one
-- for each worker at its select. A call of the sender is taken to return.
pub Shutdown-Works :
    (itoa : ℕ → String) (rate_limit : Int64) (a : Agent)
    → Moves.Run itoa rate_limit a
    → a.stopper ≡ joining
    → (n : ℕ) (b : Agent) → Works n a b
    → (m : ℕ) × ((c : Agent) × Works m b c × All IsReturned c.workers × (n + m ≤ load a))
Shutdown-Works itoa rate_limit a run e n b ws =
    let (pool, placed, phase) = Run-Sound run in
    let h = subst (λ x. Phase x a.cancelled a.closed a.workers) e phase in
    elim (Option-cases a.jobs) [
      | inr (q, j) ↦
          let (m, (c, vs, all)) =
            finish (load b) b (omega arith) (Works-IsClosed ws (h.1, (q, j))) in
          (m, (c, vs, all, omega (arith, Works-load ws, Works-load vs)))
      | inl j ↦
          let size = pool.size in
          let none_left : All IsReturned a.workers = no_workers a.workers (ground arith) in
          let same : a ≡ b = (Works-rest ws j).0 in
          (
            0,
            (
              b,
              rest,
              subst (λ (x : Agent). All IsReturned x.workers) same none_left,
              omega (arith, (Works-rest ws j).1),
            ),
          )
    ]

in_workers-IsReturned :
    (p : Batch → Bool) (ws : List Worker) → All IsReturned ws → in_workers p ws ≡ 0
in_workers-IsReturned p [] h = refl
in_workers-IsReturned p (w ∷ ws) h =
    let n : in_worker p w ≡ 0 = ap (in_worker p) h.0 in
    omega (arith, in_workers-IsReturned p ws h.1)

-- Where the limit is 0 there are no workers.
unlimited-IsReturned :
    (jobs : Option (List Batch)) (n : ℕ) (ws : List Worker)
    → Pool n jobs ws
    → n ≡ 0
    → All IsReturned ws
unlimited-IsReturned jobs n ws pool z = let size = pool.size in no_workers ws (ground arith)

-- Once Shutdown is done, either every worker has returned, or Shutdown has not closed the channel of an
-- agent with a limit: it came before Run had started the workers, and does not wait for them. In both
-- cases each batch that the agent has accepted is as often handed to a call of the sender that has
-- returned, with an error or without, in a call of a worker or of the dispatcher, or in the channel, as it
-- was accepted; none is in a call of Shutdown. The test p picks the batches that are counted.
pub stopped_lem :
    (itoa : ℕ → String) (rate_limit : Int64) (a : Agent)
    → Moves.Run itoa rate_limit a
    → a.stopper ≡ stopped
    → (p : Batch → Bool)
    → (All IsReturned a.workers ⊎ ((a.closed ≡ false) × ¬ (a.rate_limit ≡ 0)))
      × (count p a.accepted
          ≡ count p (queue a.jobs)
            + in_workers p a.workers
            + in_dispatcher p a.dispatcher
            + count p a.tried)
stopped_lem itoa rate_limit a run e p =
    let (pool, placed, phase) = Run-Sound run in
    let h = subst (λ x. Phase x a.cancelled a.closed a.workers) e phase in
    let n : in_stopper p a.stopper ≡ 0 = ap (in_stopper p) e in
    (
      elim h.1 [
        | inr all ↦ inl all
        | inl o ↦ elim (Bool-cases (eqb a.rate_limit 0)) [
          | inl z ↦ inl (unlimited-IsReturned a.jobs a.rate_limit a.workers pool (ground arith))
          | inr z ↦ inr (o, λ k. absurd (ground arith))
        ]
      ],
      omega (arith, Run-IsKept itoa rate_limit a run p),
    )
