-- ===== src/Protocol/Observing/Moves.antt =====
-- The moves that end an observation.
use ska_sdp_mini_control.Prelude.{
  ℕ, ◌≤◌, ◌≡◌, ◌≢◌, ◌⊎◌, inl, inr, refl, false, some, Bool-cases, String, arith, ◌>>◌,
}
use ska_sdp_mini_control.Prelude.Ensures.{Ensures, returned, bind_ok, bind_then, weaken_both, both}
use ska_sdp_mini_control.Models.{FilePath, ObservationState, observing, observe_failed, deleting}
use ska_sdp_mini_control.Files.{exists}
use ska_sdp_mini_control.Store.Tables.{Db, obs_row}
use ska_sdp_mini_control.Store.Observations.{ObservationChange, transition_observation}
use ska_sdp_mini_control.Store.Observations.Outcomes.{obs_is, obs_moved}
use ska_sdp_mini_control.Storage.{World, on_db}
use ska_sdp_mini_control.Storage.Rules.{on_db_rule}
use ska_sdp_mini_control.Storage.Deletion.Outcomes.{Keeps, transition_observation-Ensures}
use ska_sdp_mini_control.Storage.Quarantine.Outcomes.{quarantine_path-Keeps}
use ska_sdp_mini_control.Scheduler.Observe.{quarantine_if_there, ended_badly, mark_failed}
use ska_sdp_mini_control.Protocol.Kept.{InReach, StaysInReach, transition_observation-InReach}
use ska_sdp_mini_control.Protocol.Workers.{obs_moved-is_not}

-- `quarantine_if_there` leaves the database alone.
pub quarantine_if_there-Keeps :
    (root p : FilePath) (label : String) (db : Db) (w : World)
    → Keeps db w
    → Ensures (λ _ t. Keeps db t) (Keeps db) (quarantine_if_there root p label w)
unfolding quarantine_if_there
quarantine_if_there-Keeps root p label db w kept =
    bind_ok _ _ w refl (elim (Bool-cases (exists p w.files)) [
      | inl there ↦ rw there (
          bind_then (Keeps db) _ _ w (quarantine_path-Keeps root p label db w kept)
            λ t kept'. returned kept')
      | inr gone ↦ rw gone (returned kept)
    ])

-- The observation is not OBSERVING.
abbrev pub Settled : ℕ → World → Type 0
Settled oid t = obs_is (obs_row oid t.db) observing ≡ false

abbrev pub Ended : ℕ → ℕ → World → Type 0
Ended n oid t = InReach n t × Settled oid t

module _ (n : ℕ) (room : 1 ≤ n) (oid : ℕ) where
  pub quarantine_if_there-InReach :
      (root p : FilePath) (label : String) (w : World)
      → InReach n w
      → StaysInReach n (quarantine_if_there root p label w)
  quarantine_if_there-InReach root p label w reached =
      weaken_both (λ _ t kept. rw kept reached) (λ t kept. rw kept reached)
        (quarantine_if_there-Keeps root p label w.db w refl)

  -- A move out of OBSERVING ends it.
  pub move_ends :
      (from to : ObservationState) (c : ObservationChange) (w : World)
      → to ≢ deleting
      → to ≢ observing
      → c.reserved_bytes ≡ some 0
      → (from ≡ observing) ⊎ Settled oid w
      → InReach n w
      → Ensures (λ _ t. Ended n oid t) (InReach n) (on_db (transition_observation oid from to c) w)
  move_ends from to c w other ends released was reached =
      weaken_both (λ _ t h. (h.0, rw h.1 (obs_moved-is_not oid observing from to c w.db ends was)))
        (λ t h. h.0)
        (both (on_db (transition_observation oid from to c) w)
          (transition_observation-InReach n oid from to c w other (λ _. released) reached)
          (on_db_rule (λ _ t. t.db ≡ obs_moved oid from to c w.db) (λ _. Unit) _ w
            (weaken_both (λ _ _ h. h) (λ _ _. tt)
              (transition_observation-Ensures oid from to c w.db))))

  pub mark_failed_ends :
      (reason error : String) (w : World)
      → InReach n w
      → Ensures (λ _ t. Ended n oid t) (InReach n) (mark_failed oid observing reason error w)
  mark_failed_ends reason error w reached =
      move_ends observing observe_failed (ended_badly reason error) w (λ e. ground arith)
        (λ e. ground arith) refl (inl refl) reached

  -- Putting the data aside, and then the move.
  pub quarantine-mark_failed_ends :
      (root p : FilePath) (label reason error : String) (w : World)
      → InReach n w
      → Ensures
          (λ _ t. Ended n oid t)
          (InReach n)
          ((quarantine_if_there root p label >> mark_failed oid observing reason error) w)
  quarantine-mark_failed_ends root p label reason error w reached =
      bind_then (InReach n) _ _ w (quarantine_if_there-InReach root p label w reached)
        λ t kept. mark_failed_ends reason error t kept
