-- ===== src/Protocol/Kept.antt =====
-- Calls that take a reachable store to a reachable store, however they end.
use ska_sdp_mini_control.Prelude.{
  ℕ, ◌≤◌, ◌≡◌, ◌≢◌, true, some, none, String, Action, refl, Result, ok, err,
}
use ska_sdp_mini_control.Prelude.Ensures.{Ensures, returned, raised, weaken_both, in_any_case}
use ska_sdp_mini_control.Models.{
  FilePath, ObservationState, RunState, deleting, observing, stored, queued,
}
use ska_sdp_mini_control.Files.{Files}
use ska_sdp_mini_control.Store.Tables.{Db, EntityType, empty_db}
use ska_sdp_mini_control.Store.Observations.{
  ObservationChange, transition_observation, record_event, force_observation_fields,
}
use ska_sdp_mini_control.Store.Runs.{RunChange, transition_run, has_accepted_run}
use ska_sdp_mini_control.Storage.{World, on_db, on_files}
use ska_sdp_mini_control.Storage.Rules.{on_db_rule, on_files_returns}
use ska_sdp_mini_control.Storage.Deletion.{finish_observation_deletion}
use ska_sdp_mini_control.Storage.Deletion.Finish.{finish_observation_deletion-Deleted}
use ska_sdp_mini_control.Storage.Quarantine.{quarantine_path}
use ska_sdp_mini_control.Storage.Quarantine.Outcomes.{quarantine_path-Keeps}
use ska_sdp_mini_control.Protocol.Steps.{
  Step, Steps, next, advance_obs, resume_deletion, advance_run, log, set_error,
}
use ska_sdp_mini_control.Protocol.Operators.{Deleted-Reached}

module _ (n : ℕ) where
  -- The store can be reached.
  abbrev pub InReach : World → Type 0
  InReach w = Steps n empty_db w.db

  -- The call leaves a store that can be reached.
  abbrev pub StaysInReach : {A : Type 0} → Result A × World → Type 0
  StaysInReach r = Ensures (λ _ t. InReach t) InReach r

  pub Step-InReach :
      {A : Type 0} (m : Action Db A) (w : World)
      → Step n w.db (m w.db).1
      → InReach w
      → StaysInReach (on_db m w)
  Step-InReach m w step reached =
      on_db_rule (λ _ t. InReach t) InReach m w (go (m w.db) (next reached step))
    where
      go :
          {A : Type 0} (r : Result A × Db)
          → Steps n empty_db r.1
          → Ensures (λ _ db. Steps n empty_db db) (λ db. Steps n empty_db db) r
      go (ok a, db) there = returned there
      go (err e, db) there = raised there

  pub files-InReach :
      {A : Type 0} (m : Action Files A) (w : World) → InReach w → StaysInReach (on_files m w)
  files-InReach m w reached =
      on_files_returns (λ _ t. InReach t) InReach m w
        (in_any_case _ (λ _ _. reached) (λ _. reached))

  pub quarantine-InReach :
      (root source : FilePath) (label : String) (w : World)
      → InReach w
      → StaysInReach (quarantine_path root source label w)
  quarantine-InReach root source label w reached =
      weaken_both (λ _ t kept. rw kept reached) (λ t kept. rw kept reached)
        (quarantine_path-Keeps root source label w.db w refl)

  pub transition_observation-InReach :
      (oid : ℕ) (from to : ObservationState) (c : ObservationChange) (w : World)
      → to ≢ deleting
      → (to ≢ observing → c.reserved_bytes ≡ some 0)
      → InReach w
      → StaysInReach (on_db (transition_observation oid from to c) w)
  transition_observation-InReach oid from to c w other released =
      Step-InReach (transition_observation oid from to c) w
        (advance_obs w.db oid from to c other released)

  pub resume-InReach :
      (oid : ℕ) (c : ObservationChange) (w : World)
      → has_accepted_run oid w.db ≡ true
      → c.reserved_bytes ≡ none
      → InReach w
      → StaysInReach (on_db (transition_observation oid stored deleting c) w)
  resume-InReach oid c w permit kept =
      Step-InReach (transition_observation oid stored deleting c) w
        (resume_deletion w.db oid c permit kept)

  pub transition_run-InReach :
      (rid : ℕ) (from to : RunState) (c : RunChange) (w : World)
      → to ≢ queued
      → InReach w
      → StaysInReach (on_db (transition_run rid from to c) w)
  transition_run-InReach rid from to c w other =
      Step-InReach (transition_run rid from to c) w (advance_run w.db rid from to c other)

  pub record_event-InReach :
      (kind : EntityType) (entity : ℕ) (reason : String) (w : World)
      → InReach w
      → StaysInReach (on_db (record_event kind entity reason) w)
  record_event-InReach kind entity reason w =
      Step-InReach (record_event kind entity reason) w (log w.db kind entity reason)

  pub set_error-InReach :
      (oid : ℕ) (error : String) (w : World)
      → InReach w
      → StaysInReach (on_db (force_observation_fields oid none (some error)) w)
  set_error-InReach oid error w =
      Step-InReach (force_observation_fields oid none (some error)) w (set_error w.db oid error)

  pub finish-InReach :
      (root : FilePath) (oid : ℕ) (w : World)
      → 1 ≤ n
      → InReach w
      → StaysInReach (finish_observation_deletion root oid w)
  finish-InReach root oid w room reached =
      weaken_both (λ _ t done. Deleted-Reached n room root oid w.db t reached done)
        (λ t kept. rw kept reached) (finish_observation_deletion-Deleted root oid w)
