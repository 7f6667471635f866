-- ===== src/Store/Observations/Outcomes.antt =====
-- What the transactions on observations return and write, on every branch.
use ska_sdp_mini_control.Prelude.{
  find-mem, tx, ◌>>=◌, ◌>>◌, ℕ, suc, ◌≡◌, refl, ap, [], ◌∷◌, ◌++◌, Bool, false, some, none, Option,
  ok, err, arith, update, transition_error, count, if◌then◌else◌,
}
use ska_sdp_mini_control.Prelude.Keyed.{IsAscending, count_guarded, update_newest}
use ska_sdp_mini_control.Models.{
  FilePath, Observation, ObservationState, obs_state_eq, obs_state_in, obs_transitions, planned,
}
use ska_sdp_mini_control.Store.Tables.{
  Db, observation, obs_state, obs_in_state, obs_has_id, obs_row, add_event,
}
use ska_sdp_mini_control.Store.Observations.{
  ObservationChange, change_observation, move_observation, transition_observation, obs_guard_failed,
  illegal_obs_move, create_observation_auto, set_ms_path, ms_name,
}

abbrev pub ObsIds : Db → Type 0
ObsIds db = IsAscending (λ (o : Observation). o.id) 0 db.observations db.obs_seq

-- The observation is there, in the state that the caller expects.
abbrev pub obs_is : Option Observation → ObservationState → Bool
obs_is none s = false
obs_is (some o) s = obs_state_eq o.state s

pub obs_id : (oid : ℕ) (db : Db) {o : Observation} → obs_row oid db ≡ some o → o.id ≡ oid
obs_id oid db {o} found = ground (arith, find-mem (obs_has_id oid) db.observations {x = o} found)

pub count-obs_in_state :
    (oid : ℕ) (s : ObservationState) (db : Db)
    → ObsIds db
    → count (obs_in_state oid s) db.observations ≡ (if obs_is (obs_row oid db) s then 1 else 0)
count-obs_in_state oid s db ids = ground (
  arith,
  count_guarded (λ (o : Observation). o.id) oid 0 (λ o. obs_state_eq o.state s) db.observations
      db.obs_seq ids,
)

-- The store after the move of an observation.
abbrev pub obs_moved : ℕ → ObservationState → ObservationState → ObservationChange → Db → Db
obs_moved oid from to c db =
    add_event observation oid (some (obs_state from)) (some (obs_state to)) c.reason (record db {
      observations = update (obs_in_state oid from) (change_observation to c) db.observations;
    })

-- Where ids ascend, a transition that the table does not allow, or whose observation is not there in the expected
-- state, raises and changes nothing; any other writes the row and one event.
pub transition_observation_lem :
    (oid : ℕ) (from to : ObservationState) (c : ObservationChange) (db : Db)
    → ObsIds db
    → transition_observation oid from to c db ≡ (
        if obs_state_in to (obs_transitions from)
        then if obs_is (obs_row oid db) from
          then (ok tt, obs_moved oid from to c db)
          else (err (transition_error (obs_guard_failed oid from)), db)
        else (err (transition_error (illegal_obs_move from to)), db))
unfolding transition_observation move_observation tx ◌>>=◌ ◌>>◌
transition_observation_lem oid from to c db ids = ground (arith, count-obs_in_state oid from db ids)

-- The row that `create_observation_auto` leaves.
abbrev pub new_observation : ℕ → FilePath → ℕ → Observation
new_observation oid path reserved = record {
  id = oid;
  state = planned;
  ms_path = path;
  size_bytes = 0;
  reserved_bytes = reserved;
  error = none;
}

-- Where ids ascend, `create_observation_auto` returns the next id and appends one PLANNED row,
-- whose path ends in the name made of that id, with one event; every other row stays as it was.
pub create_observation_auto_lem :
    (root : FilePath) (reserved : ℕ) (db : Db)
    → ObsIds db
    → create_observation_auto root reserved db ≡ (
      ok (suc db.obs_seq),
      add_event observation (suc db.obs_seq) none (some (obs_state planned)) "created" (record db {
        observations =
            db.observations
            ++ new_observation (suc db.obs_seq) (root ++ ms_name (suc db.obs_seq) ∷ []) reserved
              ∷ [];
        obs_seq = suc db.obs_seq;
      }),
    )
unfolding create_observation_auto add_event tx ◌>>=◌ ◌>>◌
create_observation_auto_lem root reserved db ids =
    ap
      (λ os. (
        ok (suc db.obs_seq),
        add_event observation (suc db.obs_seq) none (some (obs_state planned)) "created"
            (record db { observations = os; obs_seq = suc db.obs_seq }),
      ))
      (update_newest (λ (o : Observation). o.id) (suc db.obs_seq) 0
        (set_ms_path (root ++ ms_name (suc db.obs_seq) ∷ [])) db.observations db.obs_seq
        (new_observation (suc db.obs_seq) ("__pending__" ∷ []) reserved) ids (omega arith) refl)
