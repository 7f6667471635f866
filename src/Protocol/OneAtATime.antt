-- ===== src/Protocol/OneAtATime.antt =====
-- Observations are taken one at a time.
use ska_sdp_mini_control.Prelude.{
  ℕ, ◌≤◌, ◌≡◌, refl, inl, inr, true, false, Bool, Bool-cases, none, some, arith, String, List, [],
  ◌∷◌, count, count-append_one, update, any, tx, ◌>>=◌, ◌>>◌, ◌==◌,
}
use ska_sdp_mini_control.Prelude.Ensures.{either_way}
use ska_sdp_mini_control.Models.{
  FilePath, Observation, ObservationState, planned, observing, observe_failed, stored, deleting,
  deleted, inconsistent, obs_state_in, obs_transitions, RunState, queued, failed,
}
use ska_sdp_mini_control.Models.Graph.{obs_state_eq_iff}
use ska_sdp_mini_control.Store.Tables.{
  Db, empty_db, obs_in_state, obs_row, obs_has_id, add_event, insert_event, update_runs,
  update_observations,
}
use ska_sdp_mini_control.Store.Observations.{
  ObservationChange, change_observation, transition_observation, record_event,
  force_observation_fields, force_fields, create_observation_auto,
}
use ska_sdp_mini_control.Store.Observations.Outcomes.{
  obs_is, obs_moved, transition_observation_lem, create_observation_auto_lem,
}
use ska_sdp_mini_control.Store.Runs.{RunChange, create_run, transition_run}
use ska_sdp_mini_control.Store.Retries.{
  mark_exhausted_failed_runs, log_exhausted, update_returning_ids, mark_run_retry_exhausted,
  is_unmarked_failure,
}
use ska_sdp_mini_control.Store.Verdicts.{
  set_deleting, accept_run_and_begin_deletion, discard_failed_run_and_begin_deletion,
  reprocess_run_and_create,
}
use ska_sdp_mini_control.Store.Verdicts.Outcomes.{
  Accepted, Discarded, Reprocessed, accept_lem, discard_lem, reprocess_lem,
}
use ska_sdp_mini_control.Protocol.Invariant.{Inv, is_under_way}
use ska_sdp_mini_control.Protocol.Creation.{create_run_lem}
use ska_sdp_mini_control.Protocol.Processing.Moves.{transition_run-Ensures}
use ska_sdp_mini_control.Protocol.Ticking.Retry.{log_exhausted-returns}
use ska_sdp_mini_control.Protocol.Steps
use ska_sdp_mini_control.Protocol.Steps.{Step, Steps, here, next, Steps-Inv}
use ska_sdp_mini_control.Protocol.Guarantees.{empty_db-Inv}

abbrev under_way : Db → ℕ
under_way db = count is_under_way db.observations

-- No observation gets under way.
abbrev Calm : Db → Db → Type 0
Calm db t = under_way t ≤ under_way db

count-update :
    (p : Observation → Bool) (f : Observation → Observation) (xs : List Observation)
    → ((x : Observation) → p x ≡ true → is_under_way (f x) ≡ true → is_under_way x ≡ true)
    → count is_under_way (update p f xs) ≤ count is_under_way xs
unfolding count update
count-update p f [] calm = omega arith
count-update p f (x ∷ xs) calm = ground (arith, count-update p f xs calm, calm x)

under_way_before :
    (from to : ObservationState)
    → obs_state_in to (obs_transitions from) ≡ true
    → obs_state_in to (observing ∷ planned ∷ []) ≡ true
    → obs_state_in from (observing ∷ planned ∷ []) ≡ true
unfolding obs_transitions
under_way_before planned to legal h = refl
under_way_before observing to legal h = refl
under_way_before stored to legal h = ground arith
under_way_before deleting to legal h = ground arith
under_way_before observe_failed to legal h = ground arith
under_way_before inconsistent to legal h = ground arith
under_way_before deleted to legal h = ground arith

moved-Calm :
    (oid : ℕ) (from to : ObservationState) (c : ObservationChange) (db : Db)
    → obs_state_in to (obs_transitions from) ≡ true
    → Calm db (obs_moved oid from to c db)
unfolding add_event change_observation
moved-Calm oid from to c db legal =
    count-update (obs_in_state oid from) (change_observation to c) db.observations
      λ x t h. ground (arith, obs_state_eq_iff x.state from, under_way_before from to legal h)

transition_observation-Calm :
    (oid : ℕ) (from to : ObservationState) (c : ObservationChange) (db : Db)
    → (n : ℕ) → Inv n db
    → Calm db (transition_observation oid from to c db).1
transition_observation-Calm oid from to c db n inv =
    rw (transition_observation_lem oid from to c db inv.obs_ids)
      (elim (Bool-cases (obs_state_in to (obs_transitions from))) [
        | inl legal ↦ elim (Bool-cases (obs_is (obs_row oid db) from)) [
          | inl holds ↦ rw (legal, holds) (moved-Calm oid from to c db legal)
          | inr other ↦ rw (legal, other) (omega arith)
        ]
        | inr illegal ↦ rw illegal (omega arith)
      ])

deletion-Calm :
    (oid : ℕ) (db : Db)
    → count is_under_way (update (obs_in_state oid stored) set_deleting db.observations)
      ≤ under_way db
deletion-Calm oid db =
    count-update (obs_in_state oid stored) set_deleting db.observations λ x t h. ground arith

log_exhausted-observations :
    (max_attempts : ℕ) (rids : List ℕ) (db : Db)
    → (log_exhausted max_attempts rids db).1.observations ≡ db.observations
unfolding log_exhausted insert_event add_event ◌>>◌ ◌>>=◌
log_exhausted-observations max_attempts [] db = refl
log_exhausted-observations max_attempts (rid ∷ rids) db =
    log_exhausted-observations max_attempts rids _

mark_exhausted-Calm :
    (max_attempts : ℕ) (db : Db) → Calm db (mark_exhausted_failed_runs max_attempts db).1
unfolding mark_exhausted_failed_runs update_returning_ids tx ◌>>=◌ ◌>>◌
mark_exhausted-Calm max_attempts db =
    rw log_exhausted-returns (rw log_exhausted-observations (omega arith))

mark_blocked-Calm :
    (rid : ℕ) (reason : String) (db : Db) → Calm db (mark_run_retry_exhausted rid reason db).1
unfolding mark_run_retry_exhausted update_runs insert_event add_event tx ◌>>=◌ ◌>>◌
mark_blocked-Calm rid reason db = elim (Bool-cases (count (is_unmarked_failure rid) db.runs == 0)) [
  | inl nothing ↦ rw nothing (omega arith)
  | inr marked ↦ rw marked (omega arith)
]

create_run-Calm :
    (oid : ℕ) (output_prefix log_path : FilePath) (db : Db)
    → Calm db (create_run oid output_prefix log_path db).1
unfolding add_event
create_run-Calm oid output_prefix log_path db =
    either_way (Calm db) (λ _ t made. rw made.1 (omega arith)) (λ t same. rw same (omega arith))
      (create_run_lem oid output_prefix log_path db)

transition_run-Calm :
    (rid : ℕ) (from to : RunState) (c : RunChange) (db : Db)
    → Calm db (transition_run rid from to c db).1
unfolding add_event
transition_run-Calm rid from to c db =
    either_way (Calm db) (λ _ t same. rw same (omega arith)) (λ t same. rw same (omega arith))
      (transition_run-Ensures rid from to c db)

accept-Calm :
    (rid : ℕ) (note : String) (db : Db) → Calm db (accept_run_and_begin_deletion rid note db).1
unfolding Accepted add_event
accept-Calm rid note db =
    either_way (Calm db) (λ oid t (r, checked, at, which, same). rw same (deletion-Calm oid db))
      (λ t same. rw same (omega arith)) (accept_lem rid note db)

discard-Calm :
    (rid : ℕ) (note : String) (db : Db)
    → Calm db (discard_failed_run_and_begin_deletion rid note db).1
unfolding Discarded add_event
discard-Calm rid note db =
    either_way (Calm db) (λ oid t (r, checked, at, which, same). rw same (deletion-Calm oid db))
      (λ t same. rw same (omega arith)) (discard_lem rid note db)

reprocess-Calm :
    (rid : ℕ) (output_prefix log_path : FilePath) (note : String) (db : Db)
    → Calm db (reprocess_run_and_create rid output_prefix log_path note db).1
unfolding Reprocessed add_event
reprocess-Calm rid output_prefix log_path note db =
    either_way (Calm db) (λ new t (r, checked, at, which, same). rw same (omega arith))
      (λ t same. rw same (omega arith)) (reprocess_lem rid output_prefix log_path note db)

set_error-Calm :
    (oid : ℕ) (error : String) (db : Db)
    → Calm db (force_observation_fields oid none (some error) db).1
unfolding force_observation_fields update_observations force_fields tx ◌>>=◌ ◌>>◌
set_error-Calm oid error db =
    count-update (obs_has_id oid) (force_fields none (some error)) db.observations λ x t h. h

none_under_way : {A : Type 0} (p : A → Bool) (xs : List A) → any p xs ≡ false → count p xs ≡ 0
unfolding any count
none_under_way p [] h = refl
none_under_way p (x ∷ xs) h = ground (arith, none_under_way p xs)

admission-one :
    (n : ℕ) (db : Db) (root : FilePath) (reserved : ℕ)
    → Inv n db
    → any is_under_way db.observations ≡ false
    → under_way (create_observation_auto root reserved db).1 ≤ 1
unfolding add_event
admission-one n db root reserved inv idle =
    rw
      (
        create_observation_auto_lem root reserved db inv.obs_ids,
        count-append_one is_under_way,
        none_under_way is_under_way db.observations idle,
      )
      (unfold count in omega arith)

Step-one : (n : ℕ) {a b : Db} → Step n a b → Inv n a → under_way a ≤ 1 → under_way b ≤ 1
unfolding record_event tx insert_event add_event
Step-one n (Steps.admit db root reserved idle) inv le = admission-one n db root reserved inv idle
Step-one n (Steps.advance_obs db oid from to c other released) inv le =
    omega (arith, transition_observation-Calm oid from to c db n inv)
Step-one n (Steps.resume_deletion db oid c permit kept) inv le =
    omega (arith, transition_observation-Calm oid stored deleting c db n inv)
Step-one n (Steps.start_initial_run db o p l m at none_yet) inv le =
    omega (arith, create_run-Calm o.id p l db)
Step-one n (Steps.advance_run db rid from to c other) inv le =
    omega (arith, transition_run-Calm rid from to c db)
Step-one n (Steps.retry db rid c left) inv le =
    omega (arith, transition_run-Calm rid failed queued c db)
Step-one n (Steps.mark_exhausted db max_attempts) inv le =
    omega (arith, mark_exhausted-Calm max_attempts db)
Step-one n (Steps.mark_blocked db rid reason) inv le =
    omega (arith, mark_blocked-Calm rid reason db)
Step-one n (Steps.accept db rid note) inv le = omega (arith, accept-Calm rid note db)
Step-one n (Steps.discard db rid note) inv le = omega (arith, discard-Calm rid note db)
Step-one n (Steps.reprocess db rid p l note) inv le = omega (arith, reprocess-Calm rid p l note db)
Step-one n (Steps.log db kind entity reason) inv le = le
Step-one n (Steps.set_error db oid error) inv le = omega (arith, set_error-Calm oid error db)

-- In every reachable store at most one observation is PLANNED or OBSERVING.
pub under_way-le-1 :
    (n : ℕ) (db : Db) → 1 ≤ n → Steps n empty_db db → count is_under_way db.observations ≤ 1
unfolding count
under_way-le-1 n db room here = omega arith
under_way-le-1 n db room (next {t} p s) =
    Step-one n s (Steps-Inv room p (empty_db-Inv n)) (under_way-le-1 n t room p)
