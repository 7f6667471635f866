-- ===== src/Protocol/Observing/Supervise.antt =====
-- The worker while it watches the runner.
use ska_sdp_mini_control.Prelude.{
  ℕ, ◌≤◌, ◌≡◌, inl, inr, refl, true, false, Bool, Bool-cases, Result, Action, ok, err, arith, List,
  [], ◌∷◌, ◌>>=◌, if◌then◌else◌, leb,
}
use ska_sdp_mini_control.Prelude.Int.{ℤ, is_zero}
use ska_sdp_mini_control.Prelude.Ensures.{
  Ensures, returned, raised, bind, bind_ok, then_ok, bind_then,
}
use ska_sdp_mini_control.Models.{FilePath, observing, stored}
use ska_sdp_mini_control.Store.Tables.{observation}
use ska_sdp_mini_control.Storage.{World, apparent_size}
use ska_sdp_mini_control.Scheduler.{Config, OverrunAction, abort, warn}
use ska_sdp_mini_control.Scheduler.Observe.{
  Interference, ObserveRun, completed, abort_overrun, warn_once, on_overrun, watch, runner_failed,
  store_data, abort_completed, warn_completed, on_completed_overrun, runner_done, await_runner,
  supervise,
}
use ska_sdp_mini_control.Protocol.Kept.{InReach, StaysInReach, record_event-InReach}
use ska_sdp_mini_control.Protocol.Workers.{Quiet, AllQuiet}
use ska_sdp_mini_control.Protocol.Observing.Moves.{
  Settled, Ended, move_ends, quarantine-mark_failed_ends,
}

module _ (n : ℕ) (room : 1 ≤ n) (oid : ℕ) where
  module _ (cfg : Config) (run : ObserveRun) (ms_path : FilePath) (ending : Quiet n run.ending)
      (stopping : Quiet n run.stopping) where
    pub abort_overrun_ends :
        (size : ℕ) (w : World)
        → InReach n w
        → Ensures (λ _ t. Ended n oid t) (InReach n) (abort_overrun cfg run oid ms_path size w)
    unfolding abort_overrun
    abort_overrun_ends size w reached = then_ok _ _ w refl (
        quarantine-mark_failed_ends n room oid cfg.data_root ms_path _ _ _ (run.stopping w)
          (stopping w reached))

    pub warn_once-InReach :
        (warned : Bool) (size : ℕ) (w : World)
        → InReach n w
        → StaysInReach n (warn_once cfg run oid ms_path warned size w)
    unfolding warn_once
    warn_once-InReach true size w reached = returned reached
    warn_once-InReach false size w reached = record_event-InReach n observation oid _ w reached

    -- Where the worker returns from the watchdog's loop, the observation has ended.
    abbrev Watched : Bool → World → Type 0
    Watched b t = InReach n t × (b ≡ true → Settled oid t)

    pub on_overrun-Watched :
        (action : OverrunAction) (warned : Bool) (size : ℕ) (rest : Action World Bool) (w : World)
        → InReach n w
        → ((t : World) → InReach n t → Ensures Watched (InReach n) (rest t))
        → Ensures Watched (InReach n) (on_overrun cfg run oid ms_path action warned size rest w)
    on_overrun-Watched abort warned size rest w reached goes_on =
        bind_then (Ended n oid) _ _ w (abort_overrun_ends size w reached)
          λ t ended. returned (ended.0, λ _. ended.1)
    on_overrun-Watched warn warned size rest w reached goes_on =
        bind_then (InReach n) _ _ w (warn_once-InReach warned size w reached) goes_on

    pub watch-Watched :
        (warned : Bool) (sleeps : List Interference) (w : World)
        → AllQuiet n sleeps
        → InReach n w
        → Ensures Watched (InReach n) (watch cfg run oid ms_path warned sleeps w)
    unfolding watch
    watch-Watched warned [] w quiet reached = returned (reached, λ e. absurd cc)
    watch-Watched warned (sleep ∷ sleeps) w quiet reached = then_ok _ _ w refl (
        bind_ok _ _ (sleep w) refl
          (elim (Bool-cases
            (leb (apparent_size ms_path (sleep w).files) cfg.observation_reservation)) [
              | inl fits ↦
                  rw fits (watch-Watched warned sleeps (sleep w) quiet.1 (quiet.0 w reached))
              | inr over ↦ rw over (
                  on_overrun-Watched cfg.reservation_overrun_action warned _ _ (sleep w)
                    (quiet.0 w reached) λ t kept. watch-Watched true sleeps t quiet.1 kept)
            ]))

    pub store_data_ends :
        (actual : ℕ) (w : World)
        → InReach n w
        → Ensures (λ _ t. Ended n oid t) (InReach n) (store_data cfg run oid ms_path actual w)
    unfolding store_data
    store_data_ends actual w reached =
        move_ends n room oid observing stored (completed actual) w (λ e. ground arith)
          (λ e. ground arith) refl (inl refl) reached

    pub on_completed_overrun_ends :
        (action : OverrunAction) (actual : ℕ) (w : World)
        → InReach n w
        → Ensures
            (λ _ t. Ended n oid t)
            (InReach n)
            (on_completed_overrun cfg run oid ms_path action actual w)
    unfolding abort_completed warn_completed
    on_completed_overrun_ends abort actual w reached =
        quarantine-mark_failed_ends n room oid cfg.data_root ms_path _ _ _ w reached
    on_completed_overrun_ends warn actual w reached =
        bind_then (InReach n) _ _ w (record_event-InReach n observation oid _ w reached)
          λ t kept. store_data_ends actual t kept

    pub runner_done_ends :
        (w : World)
        → InReach n w
        → Ensures (λ _ t. Ended n oid t) (InReach n) (runner_done cfg run oid ms_path w)
    unfolding runner_done
    runner_done_ends w reached =
        bind_ok _ _ w refl
          (elim (Bool-cases (leb (apparent_size ms_path w.files) cfg.observation_reservation)) [
            | inl fits ↦ rw fits (store_data_ends _ w reached)
            | inr over ↦
                rw over (on_completed_overrun_ends cfg.reservation_overrun_action _ w reached)
          ])

    pub exit_ends :
        (rc : Result ℤ) (w : World)
        → InReach n w
        → Ensures
            (λ _ t. Ended n oid t)
            (InReach n)
            (((λ s. (rc, s)) >>= λ code.
                if is_zero code
                then runner_done cfg run oid ms_path
                else runner_failed cfg run oid ms_path code)
              w)
    unfolding runner_failed ◌>>=◌
    exit_ends (err e) w reached = raised reached
    exit_ends (ok code) w reached = elim (Bool-cases (is_zero code)) [
      | inl zero_code ↦ rw zero_code (runner_done_ends w reached)
      | inr other ↦
          rw other (quarantine-mark_failed_ends n room oid cfg.data_root ms_path _ _ _ w reached)
    ]

    pub supervise_ends :
        (w : World)
        → AllQuiet n run.sleeps
        → InReach n w
        → Ensures (λ _ t. Ended n oid t) (InReach n) (supervise cfg run oid ms_path w)
    unfolding supervise await_runner
    supervise_ends w quiet reached =
        bind Watched _ _ w (watch-Watched false run.sleeps w quiet reached) λ b t watched.
          elim (Bool-cases b) [
            | inl gone ↦ rw gone (returned (watched.0, watched.1 gone))
            | inr going ↦
                rw going
                  (then_ok _ _ t refl (exit_ends run.outcome (run.ending t) (ending t watched.0)))
          ]
