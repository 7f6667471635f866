-- ===== src/Scheduler/Idle.antt =====
-- Scheduler.run_until_idle: the loop that ends when nothing can be done without the operator.
use ska_sdp_mini_control.Prelude.{
  String, Bool, true, false, ◌&&◌, Exc, List, [], ◌∷◌, Action, pure, raise, gets, modify, ◌>>=◌,
  ◌>>◌, if◌then◌else◌, none, timeout_error,
}
use ska_sdp_mini_control.Models.{planned, observing, queued, running}
use ska_sdp_mini_control.Store.Observations.{list_observations}
use ska_sdp_mini_control.Store.Runs.{list_runs}
use ska_sdp_mini_control.Storage.{World}
use ska_sdp_mini_control.Scheduler.{Config}
use ska_sdp_mini_control.Scheduler.Tick.{Tasks, tick, Pause}

abbrev pub is_empty {ℓ} : {A : Type ℓ} → List A → Bool
is_empty [] = true
is_empty (x ∷ xs) = false

-- `not tasks and not queued and not observing`
unfoldable pub is_idle : Tasks → World → Bool
is_idle alive w =
    is_empty alive.obs_tasks
    && is_empty alive.run_tasks
    && is_empty (list_runs (queued ∷ running ∷ []) none w.db)
    && is_empty (list_observations (planned ∷ observing ∷ []) w.db)

-- Scheduler.run_until_idle. The sleeps are those that fit in the timeout; the next one is cut off
-- by it.
unfoldable pub run_until_idle : (Exc → String) → Config → List Pause → Tasks → Action World Unit
run_until_idle repr cfg [] tasks = do
  alive ← tick repr cfg tasks
  idle ← gets (is_idle alive)
  if idle then pure tt else raise timeout_error
run_until_idle repr cfg (pause ∷ pauses) tasks = do
  alive ← tick repr cfg tasks
  idle ← gets (is_idle alive)
  if idle
      then pure tt
      else (do modify pause.meanwhile; run_until_idle repr cfg pauses (pause.left alive))
