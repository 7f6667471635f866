-- ===== src/Scheduler/Tick.antt =====
-- Scheduler.tick. The tick has no await, so nothing runs between its statements; its tasks are
-- the ids of the rows whose worker is not done.
use ska_sdp_mini_control.Prelude.{
  ℕ, suc, String, Bool, true, false, not, ◌==◌, Exc, List, [], ◌∷◌, ◌++◌, Action, pure, gets, skip,
  ◌>>=◌, ◌>>◌, if◌then◌else◌, any, select, map, none, modify, for_each, try_except, suppress,
  suppress_transition_error,
}
use ska_sdp_mini_control.Prelude.Int.{negsuc}
use ska_sdp_mini_control.Prelude.Format.{concat, decimal, zero_pad}
use ska_sdp_mini_control.Models.{
  FilePath, Observation, ProcessingRun, planned, observing, queued, running, failed,
}
use ska_sdp_mini_control.Files.{exists, parent, rmtree}
use ska_sdp_mini_control.Store.Observations.{list_observations}
use ska_sdp_mini_control.Store.Runs.{RunChange, list_runs, transition_run, create_run}
use ska_sdp_mini_control.Store.Retries.{
  mark_exhausted_failed_runs, mark_run_retry_exhausted, list_retryable_failed_runs,
  list_stored_observations_without_runs,
}
use ska_sdp_mini_control.Storage.{World, on_db, on_files}
use ska_sdp_mini_control.Storage.Quarantine.{quarantine_path}
use ska_sdp_mini_control.Reconcile.{obs_label}
use ska_sdp_mini_control.Scheduler.{Config, can_admit, campaign_has_capacity, new_observation}
use ska_sdp_mini_control.Scheduler.Observe.{Interference, mark_failed}
use ska_sdp_mini_control.Scheduler.Process.{fail_run}

-- self._obs_tasks and self._run_tasks, without the tasks that are done
pub record Tasks : Type 0 where
  pub obs_tasks : List ℕ
  pub run_tasks : List ℕ

-- `task is None or task.done()`
unfoldable pub has_no_task : List ℕ → ℕ → Bool
has_no_task tasks k = not (any (λ j. j == k) tasks)

-- The rows that get a worker.
unfoldable pub idle_observations : List ℕ → List Observation → List ℕ
idle_observations tasks rows = select (has_no_task tasks) (map (λ o. o.id) rows)

unfoldable pub idle_runs : List ℕ → List ProcessingRun → List ℕ
idle_runs tasks rows = select (has_no_task tasks) (map (λ r. r.id) rows)

abbrev pub requeued : ℕ → ℕ → RunChange
requeued executions max_attempts = record {
  reason = concat ("automatic retry " ∷ decimal (suc executions) ∷ "/" ∷ decimal max_attempts ∷ []);
  exit_code = none;
  qa_verdict = none;
  qa_note = none;
}

-- `if out_dir.exists(): shutil.rmtree(out_dir)`
unfoldable pub remove_products : ProcessingRun → Action World Unit
remove_products r = do
  there ← gets (λ w. exists (parent r.output_prefix) w.files)
  if there then on_files (rmtree (parent r.output_prefix)) else skip

-- The `try` around it; `false` is the `continue` after an exception.
unfoldable pub cleanup : (Exc → String) → ProcessingRun → Action World Bool
cleanup repr r =
    try_except (do remove_products r; pure true)
      λ exc. do
        on_db (
            mark_run_retry_exhausted r.id
              (concat ("automatic retry blocked by product cleanup failure: " ∷ repr exc ∷ [])))
        pure false

unfoldable pub requeue : ℕ → ProcessingRun → ℕ → Action World Unit
requeue max_attempts r executions =
    suppress_transition_error
      (on_db (transition_run r.id failed queued (requeued executions max_attempts)))

unfoldable pub retry_run : (Exc → String) → ℕ → ProcessingRun → ℕ → Action World Unit
retry_run repr max_attempts r executions = do
  cleaned ← cleanup repr r
  if cleaned then requeue max_attempts r executions else skip

-- Scheduler._retry_failed_runs
unfoldable pub retry_failed_runs : (Exc → String) → ℕ → Action World Unit
retry_failed_runs repr max_attempts = do
  on_db (mark_exhausted_failed_runs max_attempts)
  rows ← gets (λ w. list_retryable_failed_runs max_attempts w.db)
  for_each rows (λ row. retry_run repr max_attempts row.0 row.1)

unfoldable pub initial_prefix : FilePath → ℕ → FilePath
initial_prefix root oid =
    root ++ "products" ∷ concat ("obs-" ∷ zero_pad 6 oid ∷ []) ∷ "run-001" ∷ "product" ∷ []

unfoldable pub initial_log : FilePath → ℕ → FilePath
initial_log root oid = root ++ "logs" ∷ concat ("process-" ∷ zero_pad 6 oid ∷ "-001.log" ∷ []) ∷ []

-- Scheduler._create_initial_run
unfoldable pub create_initial_run : FilePath → ℕ → Action World Unit
create_initial_run root oid = do
  on_db (create_run oid (initial_prefix root oid) (initial_log root oid))
  skip

unfoldable pub sweep_observation : FilePath → Observation → Action World Unit
sweep_observation root obs = do
  there ← gets (λ w. exists obs.ms_path w.files)
  if there
      then suppress (quarantine_path root obs.ms_path (obs_label obs.id "orphaned-task"))
      else skip
  suppress_transition_error (
      mark_failed obs.id observing "OBSERVING state had no live in-process task"
        "orphaned in-process observation task")

unfoldable pub sweep_run : ProcessingRun → Action World Unit
sweep_run r =
    suppress_transition_error
      (fail_run r.id running "RUNNING state had no live in-process task" (negsuc 0))

-- Scheduler._sweep_orphaned_inprocess_states
unfoldable pub sweep_orphaned_inprocess_states : FilePath → Tasks → Action World Unit
sweep_orphaned_inprocess_states root tasks = do
  half_observed ← gets (λ w. list_observations (observing ∷ []) w.db)
  for_each half_observed
      (λ obs. if has_no_task tasks.obs_tasks obs.id then sweep_observation root obs else skip)
  half_run ← gets (λ w. list_runs (running ∷ []) none w.db)
  for_each half_run (λ r. if has_no_task tasks.run_tasks r.id then sweep_run r else skip)

-- The id of the observation that is admitted, if one is.
unfoldable pub admit_one : Config → Action World (List ℕ)
admit_one cfg = do
  room ← can_admit cfg
  if room then (do oid ← new_observation cfg; pure (oid ∷ [])) else pure []

-- `if not active_obs and self._campaign_has_capacity() and self.can_admit()`
unfoldable pub admission : Config → Action World (List ℕ)
admission cfg = do
  active ← gets (λ w. list_observations (observing ∷ planned ∷ []) w.db)
  capacity ← gets (λ w. campaign_has_capacity cfg w.db)
  if any (λ _. true) active then pure [] else if capacity then admit_one cfg else pure []

-- Scheduler.tick; it returns the tasks that are alive after it.
unfoldable pub tick : (Exc → String) → Config → Tasks → Action World Tasks
tick repr cfg tasks = do
  sweep_orphaned_inprocess_states cfg.data_root tasks
  retry_failed_runs repr cfg.max_processing_attempts
  waiting ← gets (λ w. list_observations (planned ∷ []) w.db)
  admitted ← admission cfg
  unprocessed ← gets (λ w. list_stored_observations_without_runs w.db)
  for_each unprocessed (λ obs. create_initial_run cfg.data_root obs.id)
  ready ← gets (λ w. list_runs (queued ∷ []) none w.db)
  pure (record {
    obs_tasks = idle_observations tasks.obs_tasks waiting ++ admitted ++ tasks.obs_tasks;
    run_tasks = idle_runs tasks.run_tasks ready ++ tasks.run_tasks;
  })

-- The sleep between two ticks: what happens meanwhile, and which tasks are not done after it.
pub record Pause : Type 0 where
  pub meanwhile : Interference
  pub left : Tasks → Tasks

-- Scheduler.run, for as many rounds as there are sleeps before it is stopped.
unfoldable pub run : (Exc → String) → Config → List Pause → Tasks → Action World Tasks
run repr cfg [] tasks = pure tasks
run repr cfg (pause ∷ pauses) tasks = do
  alive ← tick repr cfg tasks
  modify pause.meanwhile
  run repr cfg pauses (pause.left alive)
