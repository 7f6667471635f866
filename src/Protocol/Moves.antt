-- ===== src/Protocol/Moves.antt =====
-- The transitions of store.py keep the invariant, under what their callers have checked.
use ska_sdp_mini_control.Prelude.{
  ℕ, ◌<◌, ◌≡◌, ◌≢◌, ◌⊎◌, inl, inr, refl, ◌∙◌, subst, true, false, count, arith, some, none,
  mem-append_new, Option-cases, Bool-cases,
}
use ska_sdp_mini_control.Models.{
  Observation, ObservationState, RunState, observing, deleting, deleted, inconsistent, queued,
  superseded, run_state_eq, obs_state_eq, obs_state_in, run_state_in, obs_transitions,
  run_transitions,
}
use ska_sdp_mini_control.Models.Graph.{run_state_eq_iff, obs_state_eq_iff}
use ska_sdp_mini_control.Store.Tables.{
  Db, observation, obs_state, run_in_state, run_row, obs_row, obs_in_state, add_event,
}
use ska_sdp_mini_control.Store.Observations.{
  ObservationChange, change_observation, transition_observation,
}
use ska_sdp_mini_control.Store.Observations.Outcomes.{obs_moved, obs_is, transition_observation_lem}
use ska_sdp_mini_control.Store.Runs.{RunChange, change_run, transition_run}
use ska_sdp_mini_control.Store.Runs.Outcomes.{run_is, transition_run_lem}
use ska_sdp_mini_control.Store.Retries.{is_execution}
use ska_sdp_mini_control.Protocol.Invariant.{Inv, was_stored, permits_deletion, Permit}
use ska_sdp_mini_control.Protocol.Rows.{RunUpdate, ObsUpdate}
use ska_sdp_mini_control.Protocol.Writes.{Inv-event, Inv-obs_written, Inv-run_written, obs_mem}

-- What the table of transitions says of raw data.
was_stored_kept :
    (from to : ObservationState)
    → obs_state_in to (obs_transitions from) ≡ true
    → was_stored from ≡ true
    → was_stored to ≡ true
unfolding obs_transitions
was_stored_kept from to h k = ground arith

deleted_from :
    (from to : ObservationState)
    → obs_state_in to (obs_transitions from) ≡ true
    → to ≡ deleted
    → (from ≡ deleting) ⊎ (from ≡ inconsistent)
unfolding obs_transitions
deleted_from from to h k = ground arith

-- A run that moves is not superseded, and its raw data is not yet released.
mover_is_live :
    (from to : RunState)
    → run_state_in to (run_transitions from) ≡ true
    → (from ≢ superseded) × (permits_deletion from ≡ false)
unfolding run_transitions
mover_is_live from to h = (λ e. ground arith, ground arith)

module _ (n : ℕ) (db : Db) (inv : Inv n db) where
  -- What a caller of `transition_observation` has to see to.
  pub record ObsMove (oid : ℕ) (from to : ObservationState) (c : ObservationChange) : Type 0 where
    pub permit : to ≡ deleting → Permit db.runs oid
    pub release :
        to ≢ observing
        → (c.reserved_bytes ≡ some 0) ⊎ ((c.reserved_bytes ≡ none) × (was_stored from ≡ true))

  moved_fits :
      (oid : ℕ) (from to : ObservationState) (c : ObservationChange) (o : Observation)
      → obs_row oid db ≡ some o
      → o.state ≡ from
      → obs_state_in to (obs_transitions from) ≡ true
      → ObsMove oid from to c
      → ObsUpdate db.observations db.runs
          (add_event observation oid
            (some (obs_state from))
            (some (obs_state to))
            c.reason
            db).events
          (obs_in_state oid from)
          (change_observation to c)
  unfolding change_observation add_event
  moved_fits oid from to c o found at legal m = record {
    keeps_id = λ x. refl;
    keeps_stored =
        λ x t. ground (arith, was_stored_kept from to legal, obs_state_eq_iff x.state from);
    permitted = λ x _ t e. subst (Permit db.runs) (same x t) (m.permit e);
    dropped = λ x _ t e. elim (deleted_from from to legal e) [
      | inl began ↦ inl (
          subst (Permit db.runs) ((obs_mem n db inv found).1 ∙ same x t)
            ((inv.deletions o (obs_mem n db inv found).0).0 (at ∙ began)))
      | inr lost ↦ inr (_, mem-append_new db.events _, ground arith)
    ];
    released = λ x t old a b. elim (m.release b) [
      | inl zero ↦ rw zero refl
      | inr (kept, from_stored) ↦ rw kept (ground (arith, old, obs_state_eq_iff x.state from))
    ];
  }
    where
      same : (x : Observation) → obs_in_state oid from x ≡ true → oid ≡ x.id
      same x t = ground arith

  pub Inv-transition_observation :
      (oid : ℕ) (from to : ObservationState) (c : ObservationChange)
      → (obs_is (obs_row oid db) from ≡ true
          → obs_state_in to (obs_transitions from) ≡ true
          → ObsMove oid from to c)
      → Inv n (transition_observation oid from to c db).1
  unfolding add_event
  Inv-transition_observation oid from to c m =
      rw (transition_observation_lem oid from to c db inv.obs_ids)
        (elim (Bool-cases (obs_state_in to (obs_transitions from))) [
          | inl legal ↦ elim (Option-cases (obs_row oid db)) [
            | inl absent ↦ rw (legal, absent) inv
            | inr (o, found) ↦ elim (Bool-cases (obs_state_eq o.state from)) [
              | inl at ↦
                  rw (legal, found, at)
                    (moved oid from to c o found at legal (m (rw found at) legal))
              | inr other ↦ rw (legal, found, other) inv
            ]
          ]
          | inr illegal ↦ rw illegal inv
        ])
    where
      moved :
          (oid : ℕ) (from to : ObservationState) (c : ObservationChange) (o : Observation)
          → obs_row oid db ≡ some o
          → obs_state_eq o.state from ≡ true
          → obs_state_in to (obs_transitions from) ≡ true
          → ObsMove oid from to c
          → Inv n (obs_moved oid from to c db)
      moved oid from to c o found at legal m =
          Inv-obs_written n _ (Inv-event n db inv observation oid _ _ c.reason refl)
            (obs_in_state oid from) (change_observation to c)
            (moved_fits oid from to c o found ((obs_state_eq_iff o.state from).0 at) legal m)

  RunUpdate-of :
      (rid : ℕ) (from to : RunState) (c : RunChange)
      → run_state_in to (run_transitions from) ≡ true
      → RunUpdate (run_in_state rid from) (change_run to c)
  unfolding change_run
  RunUpdate-of rid from to c legal = record {
    keeps_id = λ x. refl;
    keeps_owner = λ x. refl;
    keeps_attempt = λ x. refl;
    live = λ x t e. ground (arith, mover_is_live from to legal, run_state_eq_iff x.state from);
    undecided = λ x t e. ground (arith, mover_is_live from to legal, run_state_eq_iff x.state from);
  }

  pub Inv-transition_run :
      (rid : ℕ) (from to : RunState) (c : RunChange)
      → (run_is (run_row rid db) from ≡ true → to ≡ queued → count (is_execution rid) db.events < n)
      → Inv n (transition_run rid from to c db).1
  unfolding change_run
  Inv-transition_run rid from to c room =
      rw (transition_run_lem rid from to c db inv.run_ids)
        (elim (Bool-cases (run_state_in to (run_transitions from))) [
          | inl legal ↦ elim (Option-cases (run_row rid db)) [
            | inl absent ↦ rw (legal, absent) inv
            | inr (r, found) ↦ elim (Bool-cases (run_state_eq r.state from)) [
              | inl at ↦
                  rw (legal, found, at)
                    (Inv-run_written n db inv rid from to (change_run to c) c.reason r found
                      ((run_state_eq_iff r.state from).0 at) (RunUpdate-of rid from to c legal)
                      (λ x. refl) (room (rw found at)))
              | inr other ↦ rw (legal, found, other) inv
            ]
          ]
          | inr illegal ↦ rw illegal inv
        ])
