-- ===== src/Cli/Controller.antt =====
-- cli.py: the command `run`. The engine's `kill_managed` is a
-- parameter; an interrupt by the operator ends the loop after one of its sleeps.
use ska_sdp_mini_control.Prelude.{
  ℕ, ◌≤◌, ◌≡◌, ◌⊎◌, refl, String, inl, inr, Exc, Result, ok, err, List, [], Action, skip, ◌>>=◌,
  ◌>>◌,
}
use ska_sdp_mini_control.Prelude.Ensures.{
  returned, raised, bind, bind_then, weaken_both, either_way,
}
use ska_sdp_mini_control.Models.{FilePath}
use ska_sdp_mini_control.Store.Tables.{empty_db}
use ska_sdp_mini_control.Storage.{World, in_own_process}
use ska_sdp_mini_control.Reconcile.{startup_reconcile}
use ska_sdp_mini_control.Scheduler.{Config}
use ska_sdp_mini_control.Scheduler.Tick.{Tasks, Pause, run}
use ska_sdp_mini_control.Protocol.Steps.{Steps}
use ska_sdp_mini_control.Protocol.Kept.{InReach, StaysInReach}
use ska_sdp_mini_control.Protocol.Recovery.{startup_reconcile_lem}
use ska_sdp_mini_control.Protocol.Ticking.Dispatch.{AllKeep, run-Steps}
use ska_sdp_mini_control.Cli.{RunnerKind, fake, container, build}
use ska_sdp_mini_control.Cli.Commands.{build-InReach}

-- The gate of a runner; FakeRunner.kill_managed does nothing.
abbrev pub kill_managed_of : RunnerKind → Action World Unit → Action World Unit
kill_managed_of fake engine_gate = skip
kill_managed_of container engine_gate = engine_gate

abbrev pub no_tasks : Tasks
no_tasks = record { obs_tasks = []; run_tasks = [] }

-- The command `run`: the recovery, and then the loop of a new scheduler.
unfoldable pub go : (Exc → String) → Action World Unit → Config → List Pause → Action World Unit
go repr kill_managed cfg pauses = do
  startup_reconcile repr kill_managed cfg.data_root
  run repr cfg pauses no_tasks
  skip

unfoldable pub main_run :
    (Exc → String) → Action World Unit → Config → String → List Pause → Action World Unit
main_run repr engine_gate cfg name pauses =
    in_own_process
      (do kind ← build cfg.data_root name; go repr (kill_managed_of kind engine_gate) cfg pauses)

Result-cases :
    {A : Type 0} (r : Result A × World)
    → ((a : A) × (r ≡ (ok a, r.1))) ⊎ ((e : Exc) × (r ≡ (err e, r.1)))
Result-cases (ok a, t) = inl (a, refl)
Result-cases (err e, t) = inr (e, refl)

module _ (n : ℕ) (room : 1 ≤ n) (repr : Exc → String) (engine_gate : Action World Unit)
    (safe : (w : World) → InReach n w → InReach n (engine_gate w).1) where
  gate-InReach :
      (kind : RunnerKind) (w : World)
      → InReach n w
      → InReach n (kill_managed_of kind engine_gate w).1
  gate-InReach fake w reached = reached
  gate-InReach container w reached = safe w reached

  recovery-InReach :
      (kind : RunnerKind) (root : FilePath) (w : World)
      → InReach n w
      → StaysInReach n (startup_reconcile repr (kill_managed_of kind engine_gate) root w)
  unfolding startup_reconcile ◌>>◌ ◌>>=◌
  recovery-InReach kind root w reached =
      let gate = kill_managed_of kind engine_gate in
      elim (Result-cases (gate w)) [
        | inl (_, opens) ↦
            weaken_both (λ _ t h. h) (λ t h. h.0)
              (startup_reconcile_lem n room repr gate root w (gate w).1 opens
                (gate-InReach kind w reached))
        | inr (e, shut) ↦ rw shut (raised (gate-InReach kind w reached))
      ]

  -- The command `run` with any runner takes a reachable store to a reachable store, whether it
  -- ends or raises: in the layout, in the choice of the runner, in the gate, in the recovery, or
  -- not at all. What happens in the gate and in the sleeps takes reachable stores to reachable
  -- stores, and the budget is max_processing_attempts.
  pub main_run-Steps :
      (cfg : Config) (budget : cfg.max_processing_attempts ≡ n) (name : String)
      (pauses : List Pause) (w : World)
      → AllKeep n room repr cfg budget pauses
      → Steps n empty_db w.db
      → Steps n empty_db (main_run repr engine_gate cfg name pauses w).1.db
  unfolding main_run go in_own_process
  main_run-Steps cfg budget name pauses w keep reached =
      either_way (InReach n) (λ _ t h. h) (λ t h. h)
        (bind (λ _ t. InReach n t) _ _ (record w { aux_cache = [] })
          (build-InReach n room cfg.data_root name (record w { aux_cache = [] }) reached)
          λ kind t r. bind_then (InReach n) _ _ t (recovery-InReach kind cfg.data_root t r) λ u q.
            bind_then (InReach n) _ _ u
              (weaken_both (λ _ v h. h) (λ v never. absurd never)
                (run-Steps n room repr cfg budget pauses no_tasks u keep q))
              λ v last. returned last)
