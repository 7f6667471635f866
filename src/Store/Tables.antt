-- ===== src/Store/Tables.antt =====
-- The tables of store.py and the statements on them. Rows stand in the order of their
-- AUTOINCREMENT ids, so ORDER BY id is the order of the list; a `_seq` field is the last id given
-- out (sqlite_sequence). Each method runs its statements in one transaction (`tx`).
use ska_sdp_mini_control.Prelude.{
  ℕ, suc, ◌==◌, String, Bool, true, false, ◌&&◌, Option, none, some, List, [], ◌∷◌, ◌++◌, Action,
  ok, find, count, update,
}
use ska_sdp_mini_control.Models.{
  Observation, ProcessingRun, ObservationState, RunState, obs_state_eq, run_state_eq, run_state_in,
  queued, running, awaiting_qa,
}

-- events.entity_type
pub data EntityType : Type 0 where
  observation run reconcile : EntityType

abbrev pub entity_eq : EntityType → EntityType → Bool
entity_eq observation observation = true
entity_eq run run = true
entity_eq reconcile reconcile = true
entity_eq _ _ = false

-- What events.from_state and events.to_state hold: a value of either StrEnum. The two have no
-- value in common.
pub data EntityState : Type 0 where
  obs_state : ObservationState → EntityState
  run_state : RunState → EntityState

pub record Event : Type 0 where
  pub id : ℕ
  pub entity_type : EntityType
  pub entity_id : ℕ
  pub from_state : Option EntityState
  pub to_state : Option EntityState
  pub reason : String

pub record Db : Type 0 where
  pub observations : List Observation
  pub runs : List ProcessingRun
  pub events : List Event
  pub obs_seq : ℕ
  pub run_seq : ℕ
  pub event_seq : ℕ

abbrev pub empty_db : Db
empty_db = record {
  observations = [];
  runs = [];
  events = [];
  obs_seq = 0;
  run_seq = 0;
  event_seq = 0;
}

-- WHERE id = ?
abbrev pub obs_has_id : ℕ → Observation → Bool
obs_has_id oid o = o.id == oid

abbrev pub run_has_id : ℕ → ProcessingRun → Bool
run_has_id rid r = r.id == rid

-- WHERE id = ? AND state = ?
abbrev pub obs_in_state : ℕ → ObservationState → Observation → Bool
obs_in_state oid s o = o.id == oid && obs_state_eq o.state s

abbrev pub run_in_state : ℕ → RunState → ProcessingRun → Bool
run_in_state rid s r = r.id == rid && run_state_eq r.state s

-- WHERE observation_id = ?
abbrev pub of_observation : ℕ → ProcessingRun → Bool
of_observation oid r = r.observation_id == oid

-- SELECT * FROM observations WHERE id = ?
abbrev pub obs_row : ℕ → Db → Option Observation
obs_row oid db = find (obs_has_id oid) db.observations

-- SELECT * FROM processing_runs WHERE id = ?
abbrev pub run_row : ℕ → Db → Option ProcessingRun
run_row rid db = find (run_has_id rid) db.runs

-- INSERT INTO events
unfoldable pub add_event :
    EntityType → ℕ → Option EntityState → Option EntityState → String → Db → Db
add_event kind entity from to reason db = record db {
  events =
      db.events
      ++ record {
        id = suc db.event_seq;
        entity_type = kind;
        entity_id = entity;
        from_state = from;
        to_state = to;
        reason = reason;
      }
        ∷ [];
  event_seq = suc db.event_seq;
}

unfoldable pub insert_event :
    EntityType → ℕ → Option EntityState → Option EntityState → String → Action Db Unit
unfolding add_event
insert_event kind entity from to reason db = (ok tt, add_event kind entity from to reason db)

-- UPDATE …; the result is the cursor's rowcount.
unfoldable pub update_observations :
    (Observation → Bool) → (Observation → Observation) → Action Db ℕ
update_observations p f db =
    (ok (count p db.observations), record db { observations = update p f db.observations })

unfoldable pub update_runs : (ProcessingRun → Bool) → (ProcessingRun → ProcessingRun) → Action Db ℕ
update_runs p f db = (ok (count p db.runs), record db { runs = update p f db.runs })

-- _ACTIVE_RUN_STATES
abbrev pub active_run_states : List RunState
active_run_states = queued ∷ running ∷ awaiting_qa ∷ []

abbrev pub is_active : ProcessingRun → Bool
is_active r = run_state_in r.state active_run_states

-- `x=?` among the SETs where the argument is not None
abbrev pub set_if {ℓ} : {A : Type ℓ} → Option A → A → A
set_if none old = old
set_if (some new) old = new

abbrev pub set_some_if {ℓ} : {A : Type ℓ} → Option A → Option A → Option A
set_some_if none old = old
set_some_if (some new) old = some new
