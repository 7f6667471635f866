-- ===== src/Protocol/Observing.antt =====
-- The worker of an observation, as steps of the store.
mod Moves
mod Supervise
mod Failure
pub mod Stored
pub mod Faked
use ska_sdp_mini_control.Prelude.{
  ℕ, ◌≤◌, ◌≡◌, ◌≢◌, ◌⊎◌, inl, inr, refl, true, false, some, Option-cases, Bool, Bool-cases, String,
  Exc, Result, Action, ok, err, arith, ap, suppress_transition_error, List, [], ◌∷◌, ◌>>=◌, ◌>>◌,
  if◌then◌else◌, leb, tx, transition_error,
}
use ska_sdp_mini_control.Prelude.Ensures.{
  Ensures, returned, raised, bind, bind_ok, then_ok, bind_then, bind_read, then_read, weaken,
  weaken_both, both, try_rule, suppress_rule, suppress_transition_rule, returned_ok,
}
use ska_sdp_mini_control.Models.{
  FilePath, Observation, ObservationState, planned, observing, observe_failed, stored, deleting,
  obs_state_eq, obs_state_in, obs_transitions,
}
use ska_sdp_mini_control.Store.Tables.{Db, obs_row, empty_db}
use ska_sdp_mini_control.Store.Observations.{
  ObservationChange, transition_observation, record_event,
}
use ska_sdp_mini_control.Store.Observations.Outcomes.{obs_is}
use ska_sdp_mini_control.Storage.{World, on_db}
use ska_sdp_mini_control.Qa.Outcomes.{get_observation_in}
use ska_sdp_mini_control.Scheduler.{Config}
use ska_sdp_mini_control.Scheduler.Observe.{
  Interference, ObserveRun, quarantine_if_there, ended_badly, mark_failed, fail_row,
  fail_observation, admitted, lose_claim, claim_observation, completed, abort_overrun, warn_once,
  on_overrun, watch, runner_failed, store_data, abort_completed, warn_completed,
  on_completed_overrun, runner_done, await_runner, supervise, observe_claimed, observe_body,
  observe,
}
use ska_sdp_mini_control.Protocol.Steps.{Steps}
use ska_sdp_mini_control.Protocol.Kept.{
  InReach, StaysInReach, transition_observation-InReach, record_event-InReach,
}
use ska_sdp_mini_control.Protocol.Workers.{
  Quiet, AllQuiet, obs_moved-is_not, transition_observation_goes,
}
use ska_sdp_mini_control.Protocol.Observing.Moves.{
  Settled, Ended, quarantine_if_there-InReach, move_ends, mark_failed_ends,
  quarantine-mark_failed_ends,
}
use ska_sdp_mini_control.Protocol.Observing.Supervise.{
  abort_overrun_ends, warn_once-InReach, on_overrun-Watched, watch-Watched, store_data_ends,
  on_completed_overrun_ends, runner_done_ends, exit_ends, supervise_ends,
}
use ska_sdp_mini_control.Protocol.Observing.Failure.{
  mark_goes, note_ends, fail_row_ends, fail_observation_ends,
}

module _ (n : ℕ) (room : 1 ≤ n) (oid : ℕ) where
  -- The claim of an observation that is PLANNED succeeds.
  claim-Claimed :
      (w : World)
      → InReach n w
      → Ensures
          (λ b t. InReach n t × (obs_is (obs_row oid w.db) planned ≡ true → b ≡ true))
          (InReach n)
          (claim_observation oid w)
  unfolding claim_observation obs_transitions on_db
  claim-Claimed w reached = elim (Bool-cases (obs_is (obs_row oid w.db) planned)) [
    | inl early ↦
        try_rule (λ _. ⊥) _ _ w
          (bind_then (InReach n) _ _ w
            (returned_ok tt
              (ap (λ (r : Result Unit × Db). r.0)
                (transition_observation_goes n room w reached oid planned observing admitted refl
                  early))
              (moved w reached))
            λ t kept. returned (kept, λ _. refl))
          λ e t never. absurd never
    | inr late ↦
        try_rule (InReach n) _ _ w
          (bind_then (InReach n) _ _ w (moved w reached) λ t kept. returned (kept, λ e. absurd cc))
          λ e t kept. lost e t kept (λ h. absurd cc)
  ]
    where
      moved :
          (v : World)
          → InReach n v
          → StaysInReach n (on_db (transition_observation oid planned observing admitted) v)
      moved v holds =
          transition_observation-InReach n oid planned observing admitted v (λ e. ground arith)
            (λ e. absurd (e refl)) holds

      lost :
          (e : Exc) (t : World)
          → InReach n t
          → (obs_is (obs_row oid w.db) planned ≡ true → ⊥)
          → Ensures
              (λ b u. InReach n u × (obs_is (obs_row oid w.db) planned ≡ true → b ≡ true))
              (InReach n)
              (lose_claim e t)
      lost (transition_error _) t kept never = returned (kept, λ h. absurd (never h))
      lost _ t kept never = raised kept

  module _ (repr : Exc → String) (cfg : Config) (run : ObserveRun) (sleeps : AllQuiet n run.sleeps)
      (ending : Quiet n run.ending) (stopping : Quiet n run.stopping) where
    observe_claimed_ends :
        (w : World)
        → InReach n w
        → Ensures (λ _ t. Ended n oid t) (InReach n) (observe_claimed cfg run oid w)
    unfolding observe_claimed
    observe_claimed_ends w reached =
        bind_read (λ _. Unit) _ _ w
          (weaken_both (λ _ t h. (h.0, tt)) (λ t same. rw same reached) (get_observation_in oid w))
          λ o _. supervise_ends n room oid cfg run o.ms_path ending stopping w sleeps reached

    -- Where the observation was PLANNED, it has ended.
    abbrev Finishes : World → World → Type 0
    Finishes w t = InReach n t × (obs_is (obs_row oid w.db) planned ≡ true → Settled oid t)

    observe_body-Finishes :
        (w : World)
        → InReach n w
        → Ensures (λ _ t. Finishes w t) (InReach n) (observe_body cfg run oid w)
    unfolding observe_body
    observe_body-Finishes w reached =
        then_read (λ _. Unit) _ _ w
          (weaken_both (λ _ t h. (h.0, tt)) (λ t same. rw same reached) (get_observation_in oid w))
          λ _ _.
            bind (λ b t. InReach n t × (obs_is (obs_row oid w.db) planned ≡ true → b ≡ true)) _ _ w
              (claim-Claimed w reached)
              λ b t claim. elim (Bool-cases b) [
                | inl won ↦
                    rw won (
                      weaken (λ _ u ended. (ended.0, λ _. ended.1))
                        (observe_claimed_ends t claim.0))
                | inr lost ↦
                    rw lost (returned (claim.0, λ early. absurd (let e = claim.1 early in cc)))
              ]

    observe-Finishes :
        (w : World)
        → InReach n w
        → Ensures (λ _ t. Finishes w t) (λ _. ⊥) (observe repr cfg run oid w)
    unfolding observe
    observe-Finishes w reached =
        try_rule (InReach n) _ _ w (observe_body-Finishes w reached) λ e t kept.
          then_ok _ _ t refl (
            weaken (λ _ u ended. (ended.0, λ _. ended.1))
              (fail_observation_ends n room oid cfg.data_root _ (repr e) (run.stopping t)
                (stopping t kept)))

    -- The worker of a PLANNED observation never raises. It takes a reachable store to a reachable
    -- store, in which the observation is not OBSERVING, whether the runner succeeds, fails or
    -- overruns its reservation, and whatever raises on the way, where what happens in its awaits
    -- takes reachable stores to reachable stores.
    pub observe_settles :
        (w : World)
        → Steps n empty_db w.db
        → obs_is (obs_row oid w.db) planned ≡ true
        → Ensures
            (λ _ t. Steps n empty_db t.db × (obs_is (obs_row oid t.db) observing ≡ false))
            (λ _. ⊥)
            (observe repr cfg run oid w)
    observe_settles w reached early =
        weaken (λ _ t h. (h.0, h.1 early)) (observe-Finishes w reached)
