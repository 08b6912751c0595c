-- ===== src/Agent/Workers/Sound.antt =====
-- What holds of the channel and the pool of workers, and that the workers keep it.
use mathlib.Core.List.{Perm}
use mathlib.Core.List.Perm
use mathlib.Core.Path.{subst}
use go_metrics_stas.Prelude.{
  ℕ, zero, suc, ◌≤◌, ◌≡◌, refl, sym, ap, ◌∙◌, Option, none, some, Bool, true, false, List, [], ◌∷◌,
  ◌++◌, if◌then◌else◌, is_empty, is_some, eqb, All, length, length-append, arith, Bool-cases, inl,
  inr, ◌⊎◌,
}
use go_metrics_stas.Model.{Metrics}
use go_metrics_stas.Dict.{Dict, values}
use go_metrics_stas.Agent.Workers.{
  Batch, Worker, returned, Dispatcher, asleep, waiting, offering, reporting, gone, crashed, Stopper,
  running, stopping, finishing, closing, joining, stopped, Agent, idle_workers, has_workers,
}
use go_metrics_stas.Agent.Workers.Moves
use go_metrics_stas.Agent.Workers.Moves.{IsReturned}

abbrev pub queue : Option (List Batch) → List Batch
queue none = []
queue (some q) = q

abbrev pub NonEmpty : Batch → Type 0
NonEmpty b = is_empty b ≡ false

-- What holds where the dispatcher stands, with the channel, and if that is closed or not.
abbrev pub Placed : Dispatcher → Bool → Option (List Batch) → Type 0
Placed asleep closed jobs = (is_some jobs ≡ false) × (closed ≡ false)
Placed (offering b) closed jobs = NonEmpty b
Placed (reporting b) closed jobs = is_some jobs ≡ false
Placed crashed closed jobs = closed ≡ true
Placed d closed jobs = Unit

-- The phases of a stop: whether the context is cancelled, whether the channel is closed.
abbrev pub Phase : Stopper → Bool → Bool → List Worker → Type 0
Phase running cancelled closed workers = closed ≡ false
Phase joining cancelled closed workers = (cancelled ≡ true) × (closed ≡ true)
Phase stopped cancelled closed workers =
    (cancelled ≡ true) × ((closed ≡ false) ⊎ All IsReturned workers)
Phase s cancelled closed workers = (cancelled ≡ true) × (closed ≡ false)

pub record Pool (rate_limit : ℕ) (jobs : Option (List Batch)) (workers : List Worker) : Type 0 where
  pub limited : is_some jobs ≡ true → eqb rate_limit 0 ≡ false
  pub room : length (queue jobs) ≤ rate_limit
  pub size : length workers ≡ (if is_some jobs then rate_limit else 0)
  pub full : All NonEmpty (queue jobs)

abbrev pub Sound : Agent → Type 0
Sound a =
    Pool a.rate_limit a.jobs a.workers
    × Placed a.dispatcher a.closed a.jobs
    × Phase a.stopper a.cancelled a.closed a.workers

pub All-append {ℓ} :
    {A : Type ℓ} (P : A → Type 0) (xs ys : List A) → All P xs → All P ys → All P (xs ++ ys)
All-append P [] ys f g = g
All-append P (x ∷ xs) ys f g = (f.0, All-append P xs ys f.1 g)

pub length-idle : (n : ℕ) → length (idle_workers n) ≡ n
length-idle zero = refl
length-idle (suc n) = ap suc (length-idle n)

pub values-NonEmpty :
    (m : Dict Metrics) (snapshot : Batch)
    → Perm snapshot (values m)
    → is_empty m ≡ false
    → NonEmpty snapshot
values-NonEmpty [] snapshot perm h = absurd (cc)
values-NonEmpty ((k, v) ∷ m) [] perm h = absurd (let e = Perm.nil-eq perm in cc)
values-NonEmpty ((k, v) ∷ m) (x ∷ snapshot) perm h = refl

-- A worker that has returned makes no step.
Work-alive :
    {cancelled closed : Bool} {q q' out : List Batch} {w w' : Worker}
    → Moves.Work cancelled closed q w q' w' out
    → ¬ (w ≡ returned)
Work-alive Moves.receive e = cc
Work-alive Moves.send e = cc
Work-alive (Moves.obey h) e = cc
Work-alive (Moves.drain h) e = cc

middle-IsReturned :
    (us vs : List Worker) (w : Worker) → All IsReturned (us ++ w ∷ vs) → w ≡ returned
middle-IsReturned [] vs w h = h.0
middle-IsReturned (u ∷ us) vs w h = middle-IsReturned us vs w h.1

Work-queue :
    {cancelled closed : Bool} {q q' out : List Batch} {w w' : Worker}
    → Moves.Work cancelled closed q w q' w' out
    → All NonEmpty q
    → (length q' ≤ length q) × All NonEmpty q'
Work-queue Moves.receive f = (omega arith, f.1)
Work-queue Moves.send f = (omega arith, f)
Work-queue (Moves.obey h) f = (omega arith, f)
Work-queue (Moves.drain h) f = (omega arith, tt)

length-middle :
    (us vs : List Worker) (w w' : Worker) → length (us ++ w ∷ vs) ≡ length (us ++ w' ∷ vs)
length-middle us vs w w' = omega (arith, length-append us (w ∷ vs), length-append us (w' ∷ vs))

middle-Phase :
    (cancelled closed : Bool) (us vs : List Worker) (w w' : Worker) (s : Stopper)
    → ¬ (w ≡ returned)
    → Phase s cancelled closed (us ++ w ∷ vs)
    → Phase s cancelled closed (us ++ w' ∷ vs)
middle-Phase cancelled closed us vs w w' stopped alive h =
    (h.0, elim h.1 [ inl o ↦ inl o | inr all ↦ absurd (alive (middle-IsReturned us vs w all)) ])
middle-Phase cancelled closed us vs w w' running alive h = h
middle-Phase cancelled closed us vs w w' joining alive h = h
middle-Phase cancelled closed us vs w w' stopping alive h = h
middle-Phase cancelled closed us vs w w' closing alive h = h
middle-Phase cancelled closed us vs w w' (finishing b) alive h = h

Placed-jobs :
    (d : Dispatcher) (closed : Bool) (jobs jobs' : Option (List Batch))
    → is_some jobs ≡ is_some jobs'
    → Placed d closed jobs
    → Placed d closed jobs'
Placed-jobs asleep closed jobs jobs' e h = (sym e ∙ h.0, h.1)
Placed-jobs (reporting b) closed jobs jobs' e h = sym e ∙ h
Placed-jobs (offering b) closed jobs jobs' e h = h
Placed-jobs crashed closed jobs jobs' e h = h
Placed-jobs waiting closed jobs jobs' e h = tt
Placed-jobs gone closed jobs jobs' e h = tt

pub no_channel :
    (a : Agent)
    → Pool a.rate_limit a.jobs a.workers
    → has_workers a ≡ false
    → is_some a.jobs ≡ false
no_channel a pool h = elim (Bool-cases (is_some a.jobs)) [
  | inr e ↦ e
  | inl e ↦ absurd (let z = pool.limited e in ground arith)
]

pub Working-Sound : {a b : Agent} → Moves.Working a b → Sound a → Sound b
Working-Sound {a} (Moves.works us vs w w' q q' out e j work) (pool, placed, phase) =
    let f : All NonEmpty q = subst (λ o. All NonEmpty (queue o)) j pool.full in
    let m : length (queue a.jobs) ≡ length q = ap (λ o. length (queue o)) j in
    let n : length a.workers ≡ length (us ++ w ∷ vs) = ap length e in
    let room = pool.room in
    let size = pool.size in
    (
      record {
        limited = λ i. pool.limited (ap is_some j);
        room = omega (arith, (Work-queue work f).0);
        size =
            sym (length-middle us vs w w')
            ∙ sym n
            ∙ size
            ∙ ap (λ b. if b then a.rate_limit else 0) (ap is_some j);
        full = (Work-queue work f).1;
      },
      Placed-jobs a.dispatcher a.closed a.jobs (some q') (ap is_some j) placed,
      middle-Phase a.cancelled a.closed us vs w w' a.stopper (Work-alive work)
          (subst (Phase a.stopper a.cancelled a.closed) e phase),
    )
