-- ===== src/Agent/Workers/Tests.antt =====
-- A run of an agent with one worker, which returns before it takes the batch in the channel.
use mathlib.Core.List.Perm
use go_metrics_stas.Prelude.{
  String, ℕ, ◌+◌, ◌≤◌, ◌≡◌, refl, some, true, false, [], ◌∷◌, length, All, arith, ◌⊎◌,
}
use go_metrics_stas.Dict.{put}
use go_metrics_stas.Repository.Mem.{of_gauge}
use go_metrics_stas.Agent.Workers.{
  Batch, idle, returned, waiting, crashed, joining, stopped, Agent, new_agent, start_workers,
  put_memory, dispatch_metrics, shutdown, close_jobs,
}
use go_metrics_stas.Agent.Workers.Moves
use go_metrics_stas.Agent.Workers.Moves.{Run, IsReturned}
use go_metrics_stas.Agent.Workers.Sound.{NonEmpty}
use go_metrics_stas.Agent.Workers.Limits.{busy, by_dispatcher, at_once, calls, Run-bounds}
use go_metrics_stas.Agent.Workers.Kept.{IsKept, Run-IsKept}
use go_metrics_stas.Agent.Workers.Stop.{Works, rest, load, Shutdown-Works, stopped_lem}

abbrev itoa : ℕ → String
itoa n = "1"

abbrev snapshot : Batch
snapshot = of_gauge "TotalMemory" 5 ∷ of_gauge "FreeMemory" 6 ∷ []

abbrev left : Agent
left = record {
  rate_limit = 1;
  current =
      ("TotalMemory", of_gauge "TotalMemory" 5) ∷ ("FreeMemory", of_gauge "FreeMemory" 6) ∷ [];
  poll_count = 0;
  jobs = some (snapshot ∷ []);
  closed = true;
  cancelled = true;
  workers = returned ∷ [];
  dispatcher = waiting;
  stopper = joining;
  tried = snapshot ∷ [];
  accepted = snapshot ∷ snapshot ∷ [];
}

abbrev waits : Agent
waits = record left { workers = idle ∷ [] }

-- The worker is left at its select.
Run-waits : Run itoa 1 waits
unfolding start_workers new_agent put_memory put dispatch_metrics shutdown close_jobs
Run-waits =
    let a00 : Run itoa 1 (new_agent 1) = Moves.start in
    let a0 = Moves.next a00 (λ e. cc) (Moves.begins refl) in
    let a1 = Moves.next a0 (λ e. cc) (Moves.reads_memory 5 6 (λ e. cc)) in
    let a2 = Moves.next a1 (λ e. cc) (Moves.ticks snapshot refl (Perm.refl snapshot)) in
    let a3 = Moves.next a2 (λ e. cc) (Moves.enqueues snapshot [] refl refl refl (omega arith)) in
    let a4 = Moves.next a3 (λ e. cc) (Moves.cancels refl) in
    let a5 = Moves.next a4 (λ e. cc) (Moves.shuts_down snapshot refl (Perm.refl snapshot)) in
    let a6 = Moves.next a5 (λ e. cc) (Moves.sends_last snapshot refl) in
    Moves.next a6 (λ e. cc) (Moves.closes refl)

Run-left : Run itoa 1 (record left { stopper = stopped })
Run-left =
    let obeyed =
      Moves.works {a = waits} [] [] idle returned (snapshot ∷ []) (snapshot ∷ []) [] refl refl
        (Moves.obey refl) in
    let a1 = Moves.next Run-waits (λ e. cc) (Moves.worker obeyed) in
    Moves.next a1 (λ e. cc) (Moves.joins refl (refl, tt))

Run-bounds_example :
    (length (snapshot ∷ []) ≤ 1)
    × (busy (idle ∷ []) + by_dispatcher waiting ≤ at_once 1)
    × (calls waits ≤ at_once 1 + 1)
    × All NonEmpty (snapshot ∷ [])
    × ((true ≡ true) ⊎ ¬ (waiting ≡ crashed))
    × ((true ≡ true) ⊎ (true ≡ false))
Run-bounds_example = Run-bounds itoa 1 waits Run-waits

Run-IsKept_example : IsKept (λ b. true) waits
Run-IsKept_example = Run-IsKept itoa 1 waits Run-waits (λ b. true)

Shutdown-Works_example :
    (m : ℕ) × ((c : Agent) × Works m waits c × All IsReturned c.workers × (0 + m ≤ load waits))
Shutdown-Works_example = Shutdown-Works itoa 1 waits Run-waits refl 0 waits rest

stopped_lem_example :
    (All IsReturned (returned ∷ []) ⊎ ((true ≡ false) × ¬ (left.rate_limit ≡ 0)))
    × (2 ≡ 1 + 0 + 0 + 1)
stopped_lem_example =
    stopped_lem itoa 1 (record left { stopper = stopped }) Run-left refl (λ b. true)

-- OnStop is done before `Run` starts the worker, which is then at its select.
abbrev early : Agent
early = record {
  rate_limit = 1;
  current = [];
  poll_count = 0;
  jobs = some [];
  closed = false;
  cancelled = true;
  workers = idle ∷ [];
  dispatcher = waiting;
  stopper = stopped;
  tried = [];
  accepted = [];
}

Run-early : Run itoa 1 early
unfolding start_workers new_agent shutdown close_jobs
Run-early =
    let a0 : Run itoa 1 (new_agent 1) = Moves.start in
    let a1 = Moves.next a0 (λ e. cc) (Moves.cancels refl) in
    let a2 = Moves.next a1 (λ e. cc) (Moves.shuts_down [] refl Perm.nil) in
    let a3 = Moves.next a2 (λ e. cc) (Moves.closes refl) in
    Moves.next a3 (λ e. cc) (Moves.begins refl)
