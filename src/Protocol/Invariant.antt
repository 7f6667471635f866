-- ===== src/Protocol/Invariant.antt =====
-- What holds of the store at any moment while the controller and its operators work.
use ska_sdp_mini_control.Prelude.{
  ℕ, ◌+◌, ◌≤◌, ◌<◌, ◌≡◌, ◌≢◌, ◌⊎◌, Bool, true, false, List, [], ◌∷◌, count, Memᴰ, ◌&&◌, ◌==◌,
}
use ska_sdp_mini_control.Prelude.Keyed.{IsAscending}
use ska_sdp_mini_control.Models.{
  Observation, ProcessingRun, ObservationState, obs_state_in, RunState, planned, observing,
  observe_failed, deleting, deleted, inconsistent, queued, accepted, superseded, discarded,
}
use ska_sdp_mini_control.Store.Tables.{Db, Event, entity_eq, obs_state}
use ska_sdp_mini_control.Store.Tables
use ska_sdp_mini_control.Store.Retries.{is_execution, state_is}

-- The observation finished observing: its raw data was stored at some time.
abbrev pub was_stored : ObservationState → Bool
was_stored planned = false
was_stored observing = false
was_stored observe_failed = false
was_stored _ = true

-- The observation is PLANNED or OBSERVING.
abbrev pub is_under_way : Observation → Bool
is_under_way o = obs_state_in o.state (observing ∷ planned ∷ [])

-- The two verdicts that permit the deletion of raw data.
abbrev pub permits_deletion : RunState → Bool
permits_deletion accepted = true
permits_deletion discarded = true
permits_deletion _ = false

-- A queued run has one execution coming.
abbrev pub pending : RunState → ℕ
pending queued = 1
pending _ = 0

-- The event of an operator's `resolve --drop` of an INCONSISTENT observation.
abbrev pub is_drop : ℕ → Event → Bool
is_drop oid e =
    entity_eq e.entity_type Tables.observation
    && (e.entity_id == oid
        && (state_is (obs_state inconsistent) e.from_state
            && state_is (obs_state deleted) e.to_state))

abbrev pub Stored : List Observation → ProcessingRun → Type 0
Stored os r =
    (o : Observation) × Memᴰ o os × (o.id ≡ r.observation_id) × (was_stored o.state ≡ true)

-- Every run belongs to an observation that was stored.
abbrev pub Refs : List Observation → List ProcessingRun → Type 0
Refs os rs = (r : ProcessingRun) → Memᴰ r rs → Stored os r

-- Of two runs of one observation the earlier is superseded, by a lower attempt.
abbrev pub Chain : List ProcessingRun → Type 0
Chain rs =
    (a b : ProcessingRun)
    → Memᴰ a rs
    → Memᴰ b rs
    → a.observation_id ≡ b.observation_id
    → a.id < b.id
    → (a.state ≡ superseded) × (a.attempt < b.attempt)

abbrev pub Permit : List ProcessingRun → ℕ → Type 0
Permit rs oid =
    (r : ProcessingRun) × Memᴰ r rs × (r.observation_id ≡ oid) × (permits_deletion r.state ≡ true)

abbrev pub Drop : List Event → ℕ → Type 0
Drop es oid = (e : Event) × Memᴰ e es × (is_drop oid e ≡ true)

-- Raw data is deleted only after an accepted or discarded run, or an operator's drop.
abbrev pub Deletions : List Observation → List ProcessingRun → List Event → Type 0
Deletions os rs es =
    (o : Observation)
    → Memᴰ o os
    → (o.state ≡ deleting → Permit rs o.id) × (o.state ≡ deleted → Permit rs o.id ⊎ Drop es o.id)

-- A reservation is held only before the observation ends.
abbrev pub Reservations : List Observation → Type 0
Reservations os =
    (o : Observation) → Memᴰ o os → o.state ≢ planned → o.state ≢ observing → o.reserved_bytes ≡ 0

-- The executions in the log and the one that is pending never pass the budget.
abbrev pub Budget : ℕ → List ProcessingRun → List Event → Type 0
Budget n rs es =
    (r : ProcessingRun) → Memᴰ r rs → count (is_execution r.id) es + pending r.state ≤ n

-- The log names no run that is still to come.
abbrev pub Fresh : ℕ → List Event → Type 0
Fresh seq es = (rid : ℕ) → seq < rid → count (is_execution rid) es ≡ 0

pub record Inv (n : ℕ) (db : Db) : Type 0 where
  pub obs_ids : IsAscending (λ (o : Observation). o.id) 0 db.observations db.obs_seq
  pub run_ids : IsAscending (λ (r : ProcessingRun). r.id) 0 db.runs db.run_seq
  pub refs : Refs db.observations db.runs
  pub chain : Chain db.runs
  pub deletions : Deletions db.observations db.runs db.events
  pub reservations : Reservations db.observations
  pub budget : Budget n db.runs db.events
  pub fresh : Fresh db.run_seq db.events
