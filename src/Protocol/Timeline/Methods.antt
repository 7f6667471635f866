-- ===== src/Protocol/Timeline/Methods.antt =====
-- The methods of the store keep the log telling.
use ska_sdp_mini_control.Prelude.{
  ℕ, suc, refl, inl, inr, Bool-cases, none, some, String, [], ◌∷◌, ◌++◌, tx, ◌>>=◌, ◌>>◌,
}
use ska_sdp_mini_control.Models.{
  FilePath, ObservationState, RunState, obs_state_in, run_state_in, obs_transitions,
  run_transitions,
}
use ska_sdp_mini_control.Store.Tables.{
  Db, EntityType, obs_row, run_row, obs_has_id, insert_event, update_observations,
}
use ska_sdp_mini_control.Store.Observations.{
  ObservationChange, change_observation, transition_observation, record_event,
  force_observation_fields, force_fields, create_observation_auto, ms_name,
}
use ska_sdp_mini_control.Store.Observations.Outcomes
use ska_sdp_mini_control.Store.Observations.Outcomes.{
  obs_is, transition_observation_lem, create_observation_auto_lem,
}
use ska_sdp_mini_control.Store.Runs.{RunChange, change_run, transition_run}
use ska_sdp_mini_control.Store.Runs.Outcomes.{run_is, transition_run_lem}
use ska_sdp_mini_control.Protocol.Invariant.{Inv}
use ska_sdp_mini_control.Protocol.Timeline.Told.{Tells-rewritten}
use ska_sdp_mini_control.Protocol.Timeline.Moves.{
  LogTells, note-LogTells, obs_moved-LogTells, run_moved-LogTells, obs_created-LogTells,
}

pub transition_observation-LogTells :
    (n : ℕ) (oid : ℕ) (from to : ObservationState) (c : ObservationChange) (db : Db)
    → Inv n db
    → LogTells db
    → LogTells (transition_observation oid from to c db).1
unfolding change_observation
transition_observation-LogTells n oid from to c db inv h =
    rw (transition_observation_lem oid from to c db inv.obs_ids)
      (elim (Bool-cases (obs_state_in to (obs_transitions from))) [
        | inl legal ↦ elim (Bool-cases (obs_is (obs_row oid db) from)) [
          | inl holds ↦
              rw (legal, holds)
                (obs_moved-LogTells oid from to (change_observation to c) c.reason db (λ x. refl)
                  (λ x. refl) legal holds h)
          | inr other ↦ rw (legal, other) h
        ]
        | inr illegal ↦ rw illegal h
      ])

pub transition_run-LogTells :
    (n : ℕ) (rid : ℕ) (from to : RunState) (c : RunChange) (db : Db)
    → Inv n db
    → LogTells db
    → LogTells (transition_run rid from to c db).1
unfolding change_run
transition_run-LogTells n rid from to c db inv h =
    rw (transition_run_lem rid from to c db inv.run_ids)
      (elim (Bool-cases (run_state_in to (run_transitions from))) [
        | inl legal ↦ elim (Bool-cases (run_is (run_row rid db) from)) [
          | inl holds ↦
              rw (legal, holds)
                (run_moved-LogTells rid from to (change_run to c) c.reason db (λ x. refl)
                  (λ x. refl) legal holds h)
          | inr other ↦ rw (legal, other) h
        ]
        | inr illegal ↦ rw illegal h
      ])

pub create_observation_auto-LogTells :
    (n : ℕ) (root : FilePath) (reserved : ℕ) (db : Db)
    → Inv n db
    → LogTells db
    → LogTells (create_observation_auto root reserved db).1
create_observation_auto-LogTells n root reserved db inv h =
    rw (create_observation_auto_lem root reserved db inv.obs_ids) (
      obs_created-LogTells
        (Outcomes.new_observation (suc db.obs_seq) (root ++ ms_name (suc db.obs_seq) ∷ []) reserved)
        db refl refl h)

pub record_event-LogTells :
    (kind : EntityType) (entity : ℕ) (reason : String) (db : Db)
    → LogTells db
    → LogTells (record_event kind entity reason db).1
unfolding record_event tx insert_event
record_event-LogTells kind entity reason db h = note-LogTells kind entity reason db h

pub set_error-LogTells :
    (oid : ℕ) (error : String) (db : Db)
    → LogTells db
    → LogTells (force_observation_fields oid none (some error) db).1
unfolding force_observation_fields update_observations force_fields tx ◌>>=◌ ◌>>◌
set_error-LogTells oid error db h = record {
  obs =
      Tells-rewritten h.obs (obs_has_id oid) (force_fields none (some error)) (λ x. refl)
        (λ x. refl);
  runs = h.runs;
}
