-- ===== src/Protocol/Observing/Failure.antt =====
-- The handler of an exception in the worker.
use ska_sdp_mini_control.Prelude.{
  ℕ, ◌≤◌, ◌≡◌, ◌≢◌, ◌⊎◌, inl, inr, refl, true, some, Option-cases, Bool-cases, String, Result,
  arith, ap, suppress_transition_error, tx,
}
use ska_sdp_mini_control.Prelude.Ensures.{
  Ensures, returned, bind_ok, bind_then, weaken_both, both, suppress_rule, suppress_transition_rule,
  returned_ok,
}
use ska_sdp_mini_control.Models.{
  FilePath, Observation, ObservationState, planned, observing, observe_failed, deleting,
  obs_state_eq, obs_state_in, obs_transitions,
}
use ska_sdp_mini_control.Store.Tables.{Db, observation, obs_row, insert_event, add_event}
use ska_sdp_mini_control.Store.Observations.{record_event}
use ska_sdp_mini_control.Store.Observations.Outcomes.{obs_is}
use ska_sdp_mini_control.Storage.{World, on_db}
use ska_sdp_mini_control.Storage.Deletion.Outcomes.{Keeps}
use ska_sdp_mini_control.Scheduler.Observe.{ended_badly, mark_failed, fail_row, fail_observation}
use ska_sdp_mini_control.Protocol.Kept.{InReach, record_event-InReach}
use ska_sdp_mini_control.Protocol.Workers.{transition_observation_goes}
use ska_sdp_mini_control.Protocol.Observing.Moves.{
  quarantine_if_there-Keeps, Settled, Ended, move_ends,
}

module _ (n : ℕ) (room : 1 ≤ n) (oid : ℕ) where
  -- A move that the row allows does not raise.
  pub mark_goes :
      (from : ObservationState) (reason error : String) (w : World)
      → obs_state_in observe_failed (obs_transitions from) ≡ true
      → from ≢ deleting
      → (from ≡ observing) ⊎ Settled oid w
      → obs_is (obs_row oid w.db) from ≡ true
      → InReach n w
      → Ensures
          (λ _ t. Ended n oid t)
          (λ _. ⊥)
          (suppress_transition_error (mark_failed oid from reason error) w)
  unfolding on_db
  mark_goes from reason error w legal other was holds reached =
      suppress_transition_rule (mark_failed oid from reason error) w
        (returned_ok tt
          (ap (λ (r : Result Unit × Db). r.0)
            (transition_observation_goes n room w reached oid from observe_failed
              (ended_badly reason error) legal holds))
          (move_ends n room oid from observe_failed (ended_badly reason error) w (λ e. ground arith)
            (λ e. ground arith) refl was reached))
        (λ t e. absurd e)

  -- A note in the log does not raise, and the observation stays where it is.
  pub note_ends :
      (reason : String) (w : World)
      → Settled oid w
      → InReach n w
      → Ensures (λ _ t. Ended n oid t) (λ _. ⊥) (on_db (record_event observation oid reason) w)
  unfolding on_db record_event tx insert_event add_event
  note_ends reason w settled reached =
      weaken_both (λ _ t h. h) (λ t h. h.0)
        (both {P = λ _ t. InReach n t} {Q = λ _ t. Settled oid t} {E = λ _. ⊥} {F = λ _. ⊥}
          (on_db (record_event observation oid reason) w)
          (returned_ok tt refl (record_event-InReach n observation oid reason w reached))
          (returned settled))

  pub fail_row_ends :
      (root : FilePath) (reason error : String) (obs : Observation) (w : World)
      → obs_row oid w.db ≡ some obs
      → InReach n w
      → Ensures (λ _ t. Ended n oid t) (λ _. ⊥) (fail_row root oid reason error obs w)
  unfolding fail_row obs_transitions
  fail_row_ends root reason error obs w found reached =
      elim (Bool-cases (obs_state_eq obs.state observing)) [
        | inl busy ↦ rw busy (
            bind_then (Keeps w.db) _ _ w
              (suppress_rule (Keeps w.db) _ w
                (quarantine_if_there-Keeps root obs.ms_path _ w.db w refl))
              λ t kept.
                mark_goes observing reason error t refl (λ e. ground arith) (inl refl)
                  (rw (kept, found) busy) (rw kept reached))
        | inr idle ↦ rw idle (elim (Bool-cases (obs_state_eq obs.state planned)) [
          | inl early ↦ rw early (
              mark_goes planned reason error w refl (λ e. ground arith) (inr (rw found idle))
                (rw found early) reached)
          | inr other ↦ rw other (note_ends _ w (rw found idle) reached)
        ])
      ]

  pub fail_observation_ends :
      (root : FilePath) (reason error : String) (w : World)
      → InReach n w
      → Ensures (λ _ t. Ended n oid t) (λ _. ⊥) (fail_observation root oid reason error w)
  unfolding fail_observation
  fail_observation_ends root reason error w reached =
      bind_ok _ _ w refl (elim (Option-cases (obs_row oid w.db)) [
        | inl absent ↦ rw absent (returned (reached, rw absent refl))
        | inr (obs, found) ↦ rw found (fail_row_ends root reason error obs w found reached)
      ])
