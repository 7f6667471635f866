-- ===== src/Protocol/Ticking/Sweep.antt =====
-- The sweep of a tick: rows whose worker is gone.
use ska_sdp_mini_control.Prelude.{ℕ, ◌≤◌, inl, inr, refl, arith, Bool-cases}
use ska_sdp_mini_control.Prelude.Ensures.{
  Ensures, returned, bind_ok, bind_then, suppress_rule, for_each_rule,
}
use ska_sdp_mini_control.Models.{
  Observation, ProcessingRun, ObservationState, FilePath, observing, observe_failed, running,
  failed, obs_state_in, obs_transitions,
}
use ska_sdp_mini_control.Files.{exists}
use ska_sdp_mini_control.Store.Tables.{obs_row}
use ska_sdp_mini_control.Store.Observations.{ObservationChange, transition_observation}
use ska_sdp_mini_control.Store.Observations.Outcomes.{transition_observation_lem, obs_is}
use ska_sdp_mini_control.Storage.{World, on_db}
use ska_sdp_mini_control.Reconcile.{obs_label}
use ska_sdp_mini_control.Scheduler.Observe.{ended_badly}
use ska_sdp_mini_control.Scheduler.Process.{fail_run}
use ska_sdp_mini_control.Scheduler.Tick.{
  Tasks, has_no_task, sweep_observation, sweep_run, sweep_orphaned_inprocess_states,
}
use ska_sdp_mini_control.Protocol.Steps.{Steps-Inv}
use ska_sdp_mini_control.Protocol.Guarantees.{empty_db-Inv}
use ska_sdp_mini_control.Protocol.Kept.{
  InReach, quarantine-InReach, transition_observation-InReach, transition_run-InReach,
}
use ska_sdp_mini_control.Protocol.Ticking.Retry.{NoOther, suppressed, transition_run-NoOther}

module _ (n : ℕ) (room : 1 ≤ n) where
  pub transition_observation-NoOther :
      (oid : ℕ) (from to : ObservationState) (c : ObservationChange) (w : World)
      → InReach n w
      → NoOther (on_db (transition_observation oid from to c) w).0
  unfolding on_db
  transition_observation-NoOther oid from to c w reached =
      let inv = Steps-Inv room reached (empty_db-Inv n) in
      rw (transition_observation_lem oid from to c w.db inv.obs_ids)
        (elim (Bool-cases (obs_state_in to (obs_transitions from))) [
          | inl legal ↦ elim (Bool-cases (obs_is (obs_row oid w.db) from)) [
            | inl holds ↦ rw (legal, holds) (inl refl)
            | inr other ↦ rw (legal, other) (inr (_, refl))
          ]
          | inr illegal ↦ rw illegal (inr (_, refl))
        ])

  module _ {E : World → Type 0} where
    sweep_observation-InReach :
        (root : FilePath) (obs : Observation) (w : World)
        → InReach n w
        → Ensures (λ _ t. InReach n t) E (sweep_observation root obs w)
    unfolding sweep_observation
    sweep_observation-InReach root obs w reached =
        let c =
          ended_badly "OBSERVING state had no live in-process task"
            "orphaned in-process observation task" in
        bind_ok _ _ w refl (
          bind_then (InReach n) _ _ w
            (elim (Bool-cases (exists obs.ms_path w.files)) [
              | inl there ↦ rw there (
                  suppress_rule (InReach n) _ w (
                    quarantine-InReach n root obs.ms_path (obs_label obs.id "orphaned-task") w
                      reached))
              | inr gone ↦ rw gone (returned reached)
            ])
            λ t kept.
              suppressed (on_db (transition_observation obs.id observing observe_failed c)) t
                (transition_observation-NoOther obs.id observing observe_failed c t kept)
                (transition_observation-InReach n obs.id observing observe_failed c t
                  (λ e. ground arith) (λ e. refl) kept))

    sweep_run-InReach :
        (r : ProcessingRun) (w : World)
        → InReach n w
        → Ensures (λ _ t. InReach n t) E (sweep_run r w)
    unfolding sweep_run fail_run
    sweep_run-InReach r w reached =
        suppressed _ w (transition_run-NoOther n room r.id running failed _ w reached)
          (transition_run-InReach n r.id running failed _ w (λ e. ground arith) reached)

    -- The sweep never raises.
    pub sweep-InReach :
        (root : FilePath) (tasks : Tasks) (w : World)
        → InReach n w
        → Ensures (λ _ t. InReach n t) E (sweep_orphaned_inprocess_states root tasks w)
    unfolding sweep_orphaned_inprocess_states
    sweep-InReach root tasks w reached = bind_ok _ _ w refl (
        bind_then (InReach n) _ _ w
          (for_each_rule (λ _ t. InReach n t) _
            (λ obs rest s h. elim (Bool-cases (has_no_task tasks.obs_tasks obs.id)) [
              | inl lost ↦ rw lost (sweep_observation-InReach root obs s h)
              | inr alive ↦ rw alive (returned h)
            ])
            _ w reached)
          λ t kept. bind_ok _ _ t refl (
            for_each_rule (λ _ u. InReach n u) _
              (λ r rest s h. elim (Bool-cases (has_no_task tasks.run_tasks r.id)) [
                | inl lost ↦ rw lost (sweep_run-InReach r s h)
                | inr alive ↦ rw alive (returned h)
              ])
              _ t kept))
