-- ===== src/Protocol/Workers.antt =====
-- What the workers share: moves that go through, and what is there after them.
use ska_sdp_mini_control.Prelude.{
  ℕ, ◌≤◌, ◌≡◌, ◌≢◌, ◌⊎◌, inl, inr, refl, true, false, Option-cases, ok, arith, List, [], ◌∷◌,
  find-mem, some, ◌>>=◌,
}
use ska_sdp_mini_control.Prelude.Keyed.{find-update}
use ska_sdp_mini_control.Models.{
  Observation, ObservationState, RunState, ProcessingRun, obs_state_in, obs_transitions,
  run_state_in, run_transitions,
}
use ska_sdp_mini_control.Models.Graph.{obs_state_eq_iff, run_state_eq_iff}
use ska_sdp_mini_control.Store.Tables.{
  Db, obs_row, obs_in_state, obs_has_id, run_row, run_in_state, run_has_id, add_event,
}
use ska_sdp_mini_control.Store.Observations.{
  ObservationChange, transition_observation, change_observation, get_observation,
}
use ska_sdp_mini_control.Store.Observations.Outcomes.{obs_is, obs_moved, transition_observation_lem}
use ska_sdp_mini_control.Store.Runs.{RunChange, transition_run, change_run, get_run}
use ska_sdp_mini_control.Store.Runs.Outcomes.{run_is, run_moved, transition_run_lem}
use ska_sdp_mini_control.Storage.{World, on_db}
use ska_sdp_mini_control.Protocol.Steps.{Steps-Inv}
use ska_sdp_mini_control.Protocol.Guarantees.{empty_db-Inv}
use ska_sdp_mini_control.Protocol.Kept.{InReach}

-- An await that takes reachable stores to reachable stores.
abbrev pub Quiet : ℕ → (World → World) → Type 0
Quiet n f = (w : World) → InReach n w → InReach n (f w)

abbrev pub AllQuiet : ℕ → List (World → World) → Type 0
AllQuiet n [] = Unit
AllQuiet n (f ∷ fs) = Quiet n f × AllQuiet n fs

-- After a move of the row that holds `from`, the row does not hold `busy`.
pub obs_moved-is_not :
    (oid : ℕ) (busy from to : ObservationState) (c : ObservationChange) (db : Db)
    → to ≢ busy
    → (from ≡ busy) ⊎ (obs_is (obs_row oid db) busy ≡ false)
    → obs_is (obs_row oid (obs_moved oid from to c db)) busy ≡ false
unfolding add_event change_observation
obs_moved-is_not oid busy from to c db other was =
    let e =
      find-update (λ (o : Observation). o.id) (obs_in_state oid from) (change_observation to c)
        (λ _. refl) oid db.observations in
    elim (Option-cases (obs_row oid db)) [
      | inl absent ↦ ground (arith, e, absent)
      | inr (o, found) ↦
          let (m, is_oid) = find-mem (obs_has_id oid) db.observations {x = o} found in
          ground (
            arith,
            e,
            found,
            is_oid,
            obs_state_eq_iff o.state from,
            obs_state_eq_iff o.state busy,
            obs_state_eq_iff to busy,
          )
    ]

pub run_moved-is_not :
    (rid : ℕ) (busy from to : RunState) (c : RunChange) (db : Db)
    → to ≢ busy
    → (from ≡ busy) ⊎ (run_is (run_row rid db) busy ≡ false)
    → run_is (run_row rid (run_moved rid from to c db)) busy ≡ false
unfolding add_event change_run
run_moved-is_not rid busy from to c db other was =
    let e =
      find-update (λ (r : ProcessingRun). r.id) (run_in_state rid from) (change_run to c)
        (λ _. refl) rid db.runs in
    elim (Option-cases (run_row rid db)) [
      | inl absent ↦ ground (arith, e, absent)
      | inr (r, found) ↦
          let (m, is_rid) = find-mem (run_has_id rid) db.runs {x = r} found in
          ground (
            arith,
            e,
            found,
            is_rid,
            run_state_eq_iff r.state from,
            run_state_eq_iff r.state busy,
            run_state_eq_iff to busy,
          )
    ]

-- A guarded move changes the row that it is for.
pub obs_moved-row :
    (oid : ℕ) (from to : ObservationState) (c : ObservationChange) (db : Db) (o : Observation)
    → obs_row oid db ≡ some o
    → o.state ≡ from
    → obs_row oid (obs_moved oid from to c db) ≡ some (change_observation to c o)
unfolding add_event
obs_moved-row oid from to c db o found at =
    let e =
      find-update (λ (x : Observation). x.id) (obs_in_state oid from) (change_observation to c)
        (λ _. unfold change_observation in refl) oid db.observations in
    let (m, is_oid) = find-mem (obs_has_id oid) db.observations {x = o} found in
    ground (arith, e, found, is_oid, obs_state_eq_iff o.state from)

pub run_moved-row :
    (rid : ℕ) (from to : RunState) (c : RunChange) (db : Db) (r : ProcessingRun)
    → run_row rid db ≡ some r
    → r.state ≡ from
    → run_row rid (run_moved rid from to c db) ≡ some (change_run to c r)
unfolding add_event
run_moved-row rid from to c db r found at =
    let e =
      find-update (λ (x : ProcessingRun). x.id) (run_in_state rid from) (change_run to c)
        (λ _. unfold change_run in refl) rid db.runs in
    let (m, is_rid) = find-mem (run_has_id rid) db.runs {x = r} found in
    ground (arith, e, found, is_rid, run_state_eq_iff r.state from)

-- The row that a worker reads.
pub get_observation_goes :
    (oid : ℕ) (w : World) (o : Observation)
    → obs_row oid w.db ≡ some o
    → on_db (get_observation oid) w ≡ (ok o, w)
unfolding get_observation on_db ◌>>=◌
get_observation_goes oid w o found = rw found refl

pub get_run_goes :
    (rid : ℕ) (w : World) (r : ProcessingRun)
    → run_row rid w.db ≡ some r
    → on_db (get_run rid) w ≡ (ok r, w)
unfolding get_run on_db ◌>>=◌
get_run_goes rid w r found = rw found refl

module _ (n : ℕ) (room : 1 ≤ n) (w : World) (reached : InReach n w) where
  -- The move of a row that is in the expected state, to a state that is allowed, goes through.
  pub transition_observation_goes :
      (oid : ℕ) (from to : ObservationState) (c : ObservationChange)
      → obs_state_in to (obs_transitions from) ≡ true
      → obs_is (obs_row oid w.db) from ≡ true
      → transition_observation oid from to c w.db ≡ (ok tt, obs_moved oid from to c w.db)
  transition_observation_goes oid from to c legal holds =
      let inv = Steps-Inv room reached (empty_db-Inv n) in
      ground (arith, transition_observation_lem oid from to c w.db inv.obs_ids)

  pub transition_run_goes :
      (rid : ℕ) (from to : RunState) (c : RunChange)
      → run_state_in to (run_transitions from) ≡ true
      → run_is (run_row rid w.db) from ≡ true
      → transition_run rid from to c w.db ≡ (ok tt, run_moved rid from to c w.db)
  transition_run_goes rid from to c legal holds =
      let inv = Steps-Inv room reached (empty_db-Inv n) in
      ground (arith, transition_run_lem rid from to c w.db inv.run_ids)
