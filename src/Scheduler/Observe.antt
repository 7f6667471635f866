-- ===== src/Scheduler/Observe.antt =====
-- Scheduler._observe: the worker of one observation. What other tasks and processes do while it
-- awaits is a parameter, a change of the world for each await.
use ska_sdp_mini_control.Prelude.{
  ℕ, String, Bool, true, false, leb, Exc, Result, Option, none, some, List, [], ◌∷◌, Action, pure,
  raise, gets, modify, skip, ◌>>=◌, ◌>>◌, if◌then◌else◌, try_except, suppress,
  suppress_transition_error, is_transition_error,
}
use ska_sdp_mini_control.Prelude.Int.{ℤ, is_zero}
use ska_sdp_mini_control.Prelude.Format.{concat, decimal, decimal_int}
use ska_sdp_mini_control.Models.{
  FilePath, Observation, ObservationState, planned, observing, observe_failed, stored, obs_state_eq,
  obs_value,
}
use ska_sdp_mini_control.Files.{exists}
use ska_sdp_mini_control.Store.Tables.{observation, obs_row}
use ska_sdp_mini_control.Store.Observations.{
  ObservationChange, get_observation, transition_observation, record_event,
}
use ska_sdp_mini_control.Storage.{World, on_db, apparent_size}
use ska_sdp_mini_control.Storage.Quarantine.{quarantine_path}
use ska_sdp_mini_control.Reconcile.{obs_label}
use ska_sdp_mini_control.Scheduler.{Config, OverrunAction, abort, warn}

-- What happens while a worker awaits.
abbrev pub Interference : Type 0
Interference = World → World

-- One run of the runner, as the worker sees it: the sleeps of the watchdog, each of which begins
-- while the runner's task is not done and is followed by a check of the size (a task that has just
-- been created is not done, so a run of the program has at least one), the await of its end with
-- what it gives, and the await of its abortion.
pub record ObserveRun : Type 0 where
  pub sleeps : List Interference
  pub ending : Interference
  pub outcome : Result ℤ
  pub stopping : Interference

-- `if p.exists(): quarantine_path(root, p, label)`
unfoldable pub quarantine_if_there : FilePath → FilePath → String → Action World Unit
quarantine_if_there root p label = do
  there ← gets (λ w. exists p w.files)
  if there then (do quarantine_path root p label; skip) else skip

abbrev pub ended_badly : String → String → ObservationChange
ended_badly reason error = record {
  reason = reason;
  size_bytes = none;
  reserved_bytes = some 0;
  error = some error;
}

-- A move to OBSERVE_FAILED, which every bad end makes.
abbrev pub mark_failed : ℕ → ObservationState → String → String → Action World Unit
mark_failed oid from reason error =
    on_db (transition_observation oid from observe_failed (ended_badly reason error))

-- _fail_observation, of the row that it finds
unfoldable pub fail_row : FilePath → ℕ → String → String → Observation → Action World Unit
fail_row root oid reason error obs =
    if obs_state_eq obs.state observing
    then (do
      suppress (quarantine_if_there root obs.ms_path (obs_label oid "exception"))
      suppress_transition_error (mark_failed oid observing reason error))
    else if obs_state_eq obs.state planned
    then suppress_transition_error (mark_failed oid planned reason error)
    else on_db (
        record_event observation oid
          (concat ("worker exception after state " ∷ obs_value obs.state ∷ ": " ∷ error ∷ [])))

abbrev pub fail_found : FilePath → ℕ → String → String → Option Observation → Action World Unit
fail_found root oid reason error none = skip
fail_found root oid reason error (some obs) = fail_row root oid reason error obs

-- Scheduler._fail_observation; a row that is not there is the KeyError after which it returns.
unfoldable pub fail_observation : FilePath → ℕ → String → String → Action World Unit
fail_observation root oid reason error = do
  row ← gets (λ w. obs_row oid w.db)
  fail_found root oid reason error row

abbrev pub admitted : ObservationChange
admitted = record {
  reason = "admitted under storage reservation";
  size_bytes = none;
  reserved_bytes = none;
  error = none;
}

abbrev pub lose_claim : Exc → Action World Bool
lose_claim e = if is_transition_error e then pure false else raise e

-- The `try` around PLANNED -> OBSERVING; `false` is the return after a TransitionError.
unfoldable pub claim_observation : ℕ → Action World Bool
claim_observation oid =
    try_except (do on_db (transition_observation oid planned observing admitted); pure true)
      lose_claim

abbrev pub completed : ℕ → ObservationChange
completed size = record {
  reason = "observation completed";
  size_bytes = some size;
  reserved_bytes = some 0;
  error = none;
}

module _ (cfg : Config) (run : ObserveRun) (oid : ℕ) (ms_path : FilePath) where
  -- The abort of an overrun: the runner is stopped and the data is put aside.
  unfoldable pub abort_overrun : ℕ → Action World Unit
  abort_overrun size = do
    modify run.stopping
    quarantine_if_there cfg.data_root ms_path (obs_label oid "reservation-overrun")
    mark_failed oid observing "in-flight size exceeded reservation"
        (concat ("reservation exceeded at " ∷ decimal size ∷ " bytes" ∷ []))

  unfoldable pub warn_once : Bool → ℕ → Action World Unit
  warn_once true size = skip
  warn_once false size = on_db (
      record_event observation oid (
        concat (
          "WARNING: in-flight size "
          ∷ decimal size
          ∷ " exceeded reservation "
          ∷ decimal cfg.observation_reservation
          ∷ [])))

  abbrev pub on_overrun : OverrunAction → Bool → ℕ → Action World Bool → Action World Bool
  on_overrun abort warned size rest = do abort_overrun size; pure true
  on_overrun warn warned size rest = do warn_once warned size; rest

  -- The watchdog's loop; `true` says that the worker has returned from it.
  unfoldable pub watch : Bool → List Interference → Action World Bool
  watch warned [] = pure false
  watch warned (sleep ∷ sleeps) =
      let quiet = watch warned sleeps in
      let loud = watch true sleeps in
      do
        modify sleep
        size ← gets (λ w. apparent_size ms_path w.files)
        if leb size cfg.observation_reservation
            then quiet
            else on_overrun cfg.reservation_overrun_action warned size loud

  -- The runner has exited non-zero.
  unfoldable pub runner_failed : ℤ → Action World Unit
  runner_failed rc = do
    quarantine_if_there cfg.data_root ms_path (obs_label oid "failed")
    mark_failed oid observing "runner exited non-zero" (concat ("exit code " ∷ decimal_int rc ∷ []))

  unfoldable pub store_data : ℕ → Action World Unit
  store_data actual = on_db (transition_observation oid observing stored (completed actual))

  unfoldable pub abort_completed : ℕ → Action World Unit
  abort_completed actual = do
    quarantine_if_there cfg.data_root ms_path (obs_label oid "reservation-overrun")
    mark_failed oid observing "post-completion reservation exceeded" (
        concat
          ("actual " ∷ decimal actual ∷ " > reserved " ∷ decimal cfg.observation_reservation ∷ []))

  unfoldable pub warn_completed : ℕ → Action World Unit
  warn_completed actual = do
    on_db (
        record_event observation oid (
          concat (
            "WARNING: completed size "
            ∷ decimal actual
            ∷ " exceeded reservation "
            ∷ decimal cfg.observation_reservation
            ∷ [])))
    store_data actual

  abbrev pub on_completed_overrun : OverrunAction → ℕ → Action World Unit
  on_completed_overrun abort actual = abort_completed actual
  on_completed_overrun warn actual = warn_completed actual

  -- The runner has exited with zero.
  unfoldable pub runner_done : Action World Unit
  runner_done = do
    actual ← gets (λ w. apparent_size ms_path w.files)
    if leb actual cfg.observation_reservation
        then store_data actual
        else on_completed_overrun cfg.reservation_overrun_action actual

  -- `rc = await runner_task` and what follows it.
  unfoldable pub await_runner : Action World Unit
  await_runner = do
    modify run.ending
    rc ← λ w. (run.outcome, w)
    if is_zero rc then runner_done else runner_failed rc

  unfoldable pub supervise : Action World Unit
  supervise = do returned ← watch false run.sleeps; if returned then skip else await_runner

unfoldable pub observe_claimed : Config → ObserveRun → ℕ → Action World Unit
observe_claimed cfg run oid = do
  obs ← on_db (get_observation oid)
  supervise cfg run oid obs.ms_path

-- The body of the `try`.
unfoldable pub observe_body : Config → ObserveRun → ℕ → Action World Unit
observe_body cfg run oid = do
  on_db (get_observation oid)
  claimed ← claim_observation oid
  if claimed then observe_claimed cfg run oid else skip

abbrev pub observe_failed_with : (Exc → String) → Config → ObserveRun → ℕ → Exc → Action World Unit
observe_failed_with repr cfg run oid exc = do
  modify run.stopping
  fail_observation cfg.data_root oid "observation worker raised exception" (repr exc)

-- Scheduler._observe; `repr` is the text of an exception.
unfoldable pub observe : (Exc → String) → Config → ObserveRun → ℕ → Action World Unit
observe repr cfg run oid =
    try_except (observe_body cfg run oid) (observe_failed_with repr cfg run oid)
