-- ===== src/Store/Observations.antt =====
-- The methods of class Store on observations and events (store.py).
pub mod Outcomes
use ska_sdp_mini_control.Prelude.{
  ℕ, suc, ◌==◌, String, Bool, not, true, false, Option, none, some, List, [], ◌∷◌, ◌++◌, Action, ok,
  raise_if, tx, gets, or_raise, pure, key_error, transition_error, ◌>>=◌, ◌>>◌, select, sum_where,
  length, find, skip, ◌&&◌,
}
use ska_sdp_mini_control.Prelude.Format.{concat, decimal, zero_pad}
use ska_sdp_mini_control.Models.{
  Observation, ObservationState, FilePath, obs_state_in, obs_transitions, obs_value, planned,
  observing, stored, deleting, inconsistent,
}
use ska_sdp_mini_control.Store.Tables.{
  Db, EntityType, Event, observation, obs_state, entity_eq, obs_has_id, obs_in_state, obs_row,
  add_event, insert_event, update_observations, set_if, set_some_if,
}

-- INSERT INTO observations; the id is the next of the sequence.
unfoldable pub insert_observation_row : FilePath → ℕ → Action Db ℕ
insert_observation_row ms_path reserved db =
    let oid = suc db.obs_seq in
    (
      ok oid,
      record db {
        observations =
            db.observations
            ++ record {
              id = oid;
              state = planned;
              ms_path = ms_path;
              size_bytes = 0;
              reserved_bytes = reserved;
              error = none;
            }
              ∷ [];
        obs_seq = oid;
      },
    )

-- Store._insert_observation
unfoldable pub insert_observation : FilePath → ℕ → Action Db ℕ
unfolding insert_observation_row insert_event
insert_observation ms_path reserved = do
  oid ← insert_observation_row ms_path reserved
  insert_event observation oid none (some (obs_state planned)) "created"
  pure oid

-- Store.create_observation
unfoldable pub create_observation : FilePath → ℕ → Action Db ℕ
unfolding insert_observation
create_observation ms_path reserved = tx (insert_observation ms_path reserved)

-- The directory of an observation, f"obs-{oid:06d}.ms".
unfoldable pub ms_name : ℕ → String
ms_name oid = concat ("obs-" ∷ zero_pad 6 oid ∷ ".ms" ∷ [])

abbrev set_ms_path : FilePath → Observation → Observation
set_ms_path path o = record o { ms_path = path }

-- Store.create_observation_auto
unfoldable pub create_observation_auto : FilePath → ℕ → Action Db ℕ
unfolding insert_observation update_observations
create_observation_auto root reserved = tx (do
  oid ← insert_observation ("__pending__" ∷ []) reserved
  update_observations (obs_has_id oid) (set_ms_path (root ++ ms_name oid ∷ []))
  pure oid)

-- Store.get_observation
unfoldable pub get_observation : ℕ → Action Db Observation
get_observation oid = do row ← gets (obs_row oid); or_raise row (key_error oid)

-- Store.list_observations; no list of states, or an empty one, asks for every row.
unfoldable pub list_observations : List ObservationState → Db → List Observation
list_observations [] db = db.observations
list_observations (s ∷ ss) db = select (λ o. obs_state_in o.state (s ∷ ss)) db.observations

-- The keyword arguments of Store.transition_observation.
pub record ObservationChange : Type 0 where
  pub reason : String
  pub size_bytes : Option ℕ
  pub reserved_bytes : Option ℕ
  pub error : Option String

unfoldable pub change_observation : ObservationState → ObservationChange → Observation → Observation
change_observation new c o = record o {
  state = new;
  size_bytes = set_if c.size_bytes o.size_bytes;
  reserved_bytes = set_if c.reserved_bytes o.reserved_bytes;
  error = set_some_if c.error o.error;
}

unfoldable pub obs_guard_failed : ℕ → ObservationState → String
obs_guard_failed oid expected =
    concat ("guard failed for observation " ∷ decimal oid ∷ ": expected " ∷ obs_value expected ∷ [])

unfoldable pub illegal_obs_move : ObservationState → ObservationState → String
illegal_obs_move from to =
    concat ("illegal observation transition " ∷ obs_value from ∷ "->" ∷ obs_value to ∷ [])

-- UPDATE observations … WHERE id=? AND state=?, its rowcount check, and the event.
unfoldable pub move_observation :
    ℕ → ObservationState → ObservationState → ObservationChange → Action Db Unit
unfolding update_observations insert_event
move_observation oid expected new c = do
  n ← update_observations (obs_in_state oid expected) (change_observation new c)
  raise_if (not (n == 1)) (transition_error (obs_guard_failed oid expected))
  insert_event observation oid (some (obs_state expected)) (some (obs_state new)) c.reason

-- Store.transition_observation
unfoldable pub transition_observation :
    ℕ → ObservationState → ObservationState → ObservationChange → Action Db Unit
transition_observation oid expected new c = do
  raise_if (not (obs_state_in new (obs_transitions expected)))
      (transition_error (illegal_obs_move expected new))
  tx (move_observation oid expected new c)

unfoldable pub force_fields : Option ℕ → Option String → Observation → Observation
force_fields reserved error o = record o {
  reserved_bytes = set_if reserved o.reserved_bytes;
  error = set_some_if error o.error;
}

-- Store.force_observation_fields; with nothing to set it does not touch the database.
unfoldable pub force_observation_fields : ℕ → Option ℕ → Option String → Action Db Unit
unfolding update_observations
force_observation_fields oid none none = skip
force_observation_fields oid reserved error =
    tx (do update_observations (obs_has_id oid) (force_fields reserved error); skip)

-- Store.record_event
unfoldable pub record_event : EntityType → ℕ → String → Action Db Unit
unfolding insert_event
record_event kind entity reason = tx (insert_event kind entity none none reason)

-- Store.logical_storage
unfoldable pub logical_storage : Db → ℕ × ℕ
logical_storage db = (
  sum_where (λ o. obs_state_in o.state (stored ∷ deleting ∷ inconsistent ∷ [])) (λ o. o.size_bytes)
      db.observations,
  sum_where (λ o. obs_state_in o.state (planned ∷ observing ∷ [])) (λ o. o.reserved_bytes)
      db.observations,
)

-- Store.count_observations
unfoldable pub count_observations : Db → ℕ
count_observations db = length db.observations

-- Store.events_for
unfoldable pub events_for : EntityType → ℕ → Db → List Event
events_for kind entity db =
    select (λ e. entity_eq e.entity_type kind && e.entity_id == entity) db.events
