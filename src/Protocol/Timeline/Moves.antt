-- ===== src/Protocol/Timeline/Moves.antt =====
-- The statements of the store, each with its event, keep the log telling.
use ska_sdp_mini_control.Prelude.{
  ℕ, suc, ◌≡◌, refl, true, none, some, Option, arith, String, [], ◌∷◌, ◌++◌, update, find-mem,
}
use ska_sdp_mini_control.Models.{
  Observation, ProcessingRun, ObservationState, RunState, planned, queued, obs_state_in,
  run_state_in, obs_transitions, run_transitions,
}
use ska_sdp_mini_control.Models.Graph.{obs_state_eq_iff, run_state_eq_iff}
use ska_sdp_mini_control.Store.Tables
use ska_sdp_mini_control.Store.Tables.{
  Db, Event, EntityType, EntityState, observation, obs_state, run_state, entity_eq, empty_db,
  add_event, obs_in_state, run_in_state, obs_row, run_row, obs_has_id, run_has_id, insert_event,
  update_runs, update_observations,
}
use ska_sdp_mini_control.Store.Observations.Outcomes.{obs_is}
use ska_sdp_mini_control.Store.Runs.{append_run}
use ska_sdp_mini_control.Store.Runs.Outcomes.{run_is}
use ska_sdp_mini_control.Protocol.Timeline.{is_legal}
use ska_sdp_mini_control.Protocol.Timeline.Told.{
  Tells, Says, Tells-note, Tells-apart, Tells-inserted, Tells-moved,
}

abbrev state_of_obs : Observation → EntityState
state_of_obs o = obs_state o.state

abbrev state_of_run : ProcessingRun → EntityState
state_of_run r = run_state r.state

-- The log tells the state of every observation and of every run.
pub record LogTells (db : Db) : Type 0 where
  pub obs :
      Tells observation
        (λ (o : Observation). o.id)
        state_of_obs
        db.observations
        db.obs_seq
        db.events
  pub runs :
      Tells Tables.run (λ (r : ProcessingRun). r.id) state_of_run db.runs db.run_seq db.events

abbrev event_after : Db → EntityType → ℕ → Option EntityState → Option EntityState → String → Event
event_after db kind entity from to reason = record {
  id = suc db.event_seq;
  entity_type = kind;
  entity_id = entity;
  from_state = from;
  to_state = to;
  reason = reason;
}

says :
    (db : Db) (kind : EntityType) (k : ℕ) (from : Option EntityState) (to : EntityState)
    (reason : String)
    → entity_eq kind kind ≡ true
    → is_legal from to ≡ true
    → Says (event_after db kind k from (some to) reason) kind k from to
says db kind k from to reason self legal = record {
  about = ground arith;
  only = λ j other. ground arith;
  starts = refl;
  ends = refl;
  legal = legal;
}

pub note-LogTells :
    (kind : EntityType) (entity : ℕ) (reason : String) (db : Db)
    → LogTells db
    → LogTells (add_event kind entity none none reason db)
unfolding add_event
note-LogTells kind entity reason db h = record {
  obs = Tells-note h.obs _ refl;
  runs = Tells-note h.runs _ refl;
}

-- An UPDATE of one observation's state with its event.
pub obs_moved-LogTells :
    (oid : ℕ) (from to : ObservationState) (f : Observation → Observation) (reason : String)
    (db : Db)
    → ((x : Observation) → (f x).id ≡ x.id)
    → ((x : Observation) → (f x).state ≡ to)
    → obs_state_in to (obs_transitions from) ≡ true
    → obs_is (obs_row oid db) from ≡ true
    → LogTells db
    → LogTells (
        add_event observation oid
          (some (obs_state from))
          (some (obs_state to))
          reason
          (record db { observations = update (obs_in_state oid from) f db.observations }))
unfolding add_event is_legal
obs_moved-LogTells oid from to f reason db keeps sets legal holds h = go (obs_row oid db) refl holds
  where
    go :
        (row : Option Observation)
        → obs_row oid db ≡ row
        → obs_is row from ≡ true
        → LogTells (
            add_event observation oid
              (some (obs_state from))
              (some (obs_state to))
              reason
              (record db { observations = update (obs_in_state oid from) f db.observations }))
    go none found holds = absurd cc
    go (some y) found holds =
        let (my, is_y) = find-mem (obs_has_id oid) db.observations {x = y} found in
        let at : y.state ≡ from = ground (arith, holds, obs_state_eq_iff y.state from) in
        record {
          obs =
              Tells-moved h.obs (obs_in_state oid from) f _ oid (obs_state from) (obs_state to) y
                keeps (λ x. rw sets refl) (λ x t. ground (arith, t))
                (λ x same is. ground (arith, same, obs_state_eq_iff x.state from))
                (says db observation oid (some (obs_state from)) (obs_state to) reason refl legal)
                my (ground (arith, is_y)) (rw at refl);
          runs = Tells-apart h.runs _ (λ k. refl);
        }

pub run_moved-LogTells :
    (rid : ℕ) (from to : RunState) (f : ProcessingRun → ProcessingRun) (reason : String) (db : Db)
    → ((x : ProcessingRun) → (f x).id ≡ x.id)
    → ((x : ProcessingRun) → (f x).state ≡ to)
    → run_state_in to (run_transitions from) ≡ true
    → run_is (run_row rid db) from ≡ true
    → LogTells db
    → LogTells (
        add_event Tables.run rid
          (some (run_state from))
          (some (run_state to))
          reason
          (record db { runs = update (run_in_state rid from) f db.runs }))
unfolding add_event is_legal
run_moved-LogTells rid from to f reason db keeps sets legal holds h = go (run_row rid db) refl holds
  where
    go :
        (row : Option ProcessingRun)
        → run_row rid db ≡ row
        → run_is row from ≡ true
        → LogTells (
            add_event Tables.run rid
              (some (run_state from))
              (some (run_state to))
              reason
              (record db { runs = update (run_in_state rid from) f db.runs }))
    go none found holds = absurd cc
    go (some y) found holds =
        let (my, is_y) = find-mem (run_has_id rid) db.runs {x = y} found in
        let at : y.state ≡ from = ground (arith, holds, run_state_eq_iff y.state from) in
        record {
          obs = Tells-apart h.obs _ (λ k. refl);
          runs =
              Tells-moved h.runs (run_in_state rid from) f _ rid (run_state from) (run_state to) y
                keeps (λ x. rw sets refl) (λ x t. ground (arith, t))
                (λ x same is. ground (arith, same, run_state_eq_iff x.state from))
                (says db Tables.run rid (some (run_state from)) (run_state to) reason refl legal) my
                (ground (arith, is_y)) (rw at refl);
        }

-- A new observation, with the event of its creation.
pub obs_created-LogTells :
    (o : Observation) (db : Db)
    → o.id ≡ suc db.obs_seq
    → o.state ≡ planned
    → LogTells db
    → LogTells (
        add_event observation o.id none
          (some (obs_state planned))
          "created"
          (record db { observations = db.observations ++ o ∷ []; obs_seq = o.id }))
unfolding add_event is_legal
obs_created-LogTells o db new at h = record {
  obs =
      Tells-inserted h.obs o _ (omega (arith, new))
        (rw at (says db observation o.id none (obs_state planned) "created" refl refl));
  runs = Tells-apart h.runs _ (λ k. refl);
}

pub run_created-LogTells :
    (r : ProcessingRun) (reason : String) (db : Db)
    → r.id ≡ suc db.run_seq
    → r.state ≡ queued
    → LogTells db
    → LogTells (add_event Tables.run r.id none (some (run_state queued)) reason (append_run r db))
unfolding add_event is_legal
run_created-LogTells r reason db new at h = record {
  obs = Tells-apart h.obs _ (λ k. refl);
  runs =
      Tells-inserted h.runs r _ (omega (arith, new))
        (rw at (says db Tables.run r.id none (run_state queued) reason refl refl));
}
