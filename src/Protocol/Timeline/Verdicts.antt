-- ===== src/Protocol/Timeline/Verdicts.antt =====
-- The verdicts, the marks and the first runs keep the log telling, and so does any sequence of steps.
use ska_sdp_mini_control.Prelude.{
  ℕ, suc, ◌+◌, map, ◌≤◌, ◌≡◌, refl, inl, inr, true, Bool, Bool-cases, none, some, arith, String,
  List, [], ◌∷◌, Memᴰ, update, count, tx, ◌>>=◌, ◌>>◌, ◌==◌, select,
}
use ska_sdp_mini_control.Prelude.Ensures.{either_way}
use ska_sdp_mini_control.Models.{
  FilePath, Observation, ProcessingRun, RunState, stored, deleting, queued, awaiting_qa, accepted,
  failed, discarded, superseded, run_state_in, obs_transitions, run_transitions,
}
use ska_sdp_mini_control.Models.Graph.{obs_state_eq_iff, run_state_eq_iff}
use ska_sdp_mini_control.Store.Tables
use ska_sdp_mini_control.Store.Tables.{
  Db, EntityState, observation, obs_state, run_state, empty_db, add_event, obs_row, run_row,
  insert_event, update_runs,
}
use ska_sdp_mini_control.Store.Observations.{events_for}
use ska_sdp_mini_control.Store.Runs.{create_run, new_run, next_attempt}
use ska_sdp_mini_control.Store.Retries.{
  mark_exhausted_failed_runs, log_exhausted, update_returning_ids, mark_run_retry_exhausted,
  is_unmarked_failure, is_newly_exhausted, set_exhausted,
}
use ska_sdp_mini_control.Store.Verdicts.{
  set_deleting, set_verdict, is_reprocessable, accept_run_and_begin_deletion,
  discard_failed_run_and_begin_deletion, reprocess_run_and_create,
}
use ska_sdp_mini_control.Store.Verdicts.Outcomes.{
  judged, deletion_begun, Accepted, Discarded, Reprocessed, accept_lem, discard_lem, reprocess_lem,
}
use ska_sdp_mini_control.Protocol.Creation.{create_run_lem}
use ska_sdp_mini_control.Protocol.Ticking.Retry.{log_exhausted-returns}
use ska_sdp_mini_control.Protocol.Invariant.{Inv}
use ska_sdp_mini_control.Protocol.Steps
use ska_sdp_mini_control.Protocol.Steps.{Step, Steps, here, next, Steps-Inv}
use ska_sdp_mini_control.Protocol.Guarantees.{empty_db-Inv}
use ska_sdp_mini_control.Protocol.Timeline.{told, replay}
use ska_sdp_mini_control.Protocol.Timeline.Told.{Tells-rewritten}
use ska_sdp_mini_control.Protocol.Timeline.Moves.{
  LogTells, note-LogTells, obs_moved-LogTells, run_moved-LogTells, run_created-LogTells,
}
use ska_sdp_mini_control.Protocol.Timeline.Methods.{
  transition_observation-LogTells, transition_run-LogTells, create_observation_auto-LogTells,
  record_event-LogTells, set_error-LogTells,
}

create_run-LogTells :
    (oid : ℕ) (output_prefix log_path : FilePath) (db : Db)
    → LogTells db
    → LogTells (create_run oid output_prefix log_path db).1
create_run-LogTells oid output_prefix log_path db h =
    either_way LogTells
      (λ rid t (new, made).
        rw (made, new)
          (run_created-LogTells
            (new_run (suc db.run_seq) oid (next_attempt oid db) output_prefix log_path) "created" db
            refl refl h))
      (λ t same. rw same h) (create_run_lem oid output_prefix log_path db)

judged-LogTells :
    (rid : ℕ) (from new : RunState) (verdict note reason : String) (r : ProcessingRun) (db : Db)
    → run_state_in new (run_transitions from) ≡ true
    → run_row rid db ≡ some r
    → r.state ≡ from
    → LogTells db
    → LogTells (judged rid from new verdict note reason db)
judged-LogTells rid from new verdict note reason r db legal found at h =
    run_moved-LogTells rid from new (set_verdict new verdict note) reason db (λ x. refl) (λ x. refl)
      legal (rw found (ground (arith, at, run_state_eq_iff r.state from))) h

deletion_begun-LogTells :
    (oid : ℕ) (reason : String) (o : Observation) (db : Db)
    → obs_row oid db ≡ some o
    → o.state ≡ stored
    → LogTells db
    → LogTells (deletion_begun oid reason db)
unfolding obs_transitions
deletion_begun-LogTells oid reason o db found at h =
    obs_moved-LogTells oid stored deleting set_deleting reason db (λ x. refl) (λ x. refl) refl
      (rw found (ground (arith, at, obs_state_eq_iff o.state stored))) h

accept-LogTells :
    (rid : ℕ) (note : String) (db : Db)
    → LogTells db
    → LogTells (accept_run_and_begin_deletion rid note db).1
unfolding Accepted run_transitions add_event
accept-LogTells rid note db h =
    either_way LogTells
      (λ oid t (r, checked, at, which, same).
        rw (same, which)
          (deletion_begun-LogTells r.observation_id _ checked.obs _ checked.obs_found
            checked.obs_stored
            (judged-LogTells rid awaiting_qa accepted "accept" note _ r db refl checked.run_found at
              h)))
      (λ t same. rw same h) (accept_lem rid note db)

discard-LogTells :
    (rid : ℕ) (note : String) (db : Db)
    → LogTells db
    → LogTells (discard_failed_run_and_begin_deletion rid note db).1
unfolding Discarded run_transitions add_event
discard-LogTells rid note db h =
    either_way LogTells
      (λ oid t (r, checked, at, which, same).
        rw (same, which)
          (deletion_begun-LogTells r.observation_id _ checked.obs _ checked.obs_found
            checked.obs_stored
            (judged-LogTells rid failed discarded "discard" note _ r db refl checked.run_found at
              h)))
      (λ t same. rw same h) (discard_lem rid note db)

supersedes :
    (s : RunState) → is_reprocessable s ≡ true → run_state_in superseded (run_transitions s) ≡ true
unfolding run_transitions
supersedes s h = ground arith

reprocess-LogTells :
    (rid : ℕ) (output_prefix log_path : FilePath) (note : String) (db : Db)
    → LogTells db
    → LogTells (reprocess_run_and_create rid output_prefix log_path note db).1
unfolding Reprocessed add_event
reprocess-LogTells rid output_prefix log_path note db h =
    either_way LogTells
      (λ new t (r, checked, at, which, same). rw same (
        run_created-LogTells
          (new_run (suc db.run_seq) r.observation_id (r.attempt + 1) output_prefix log_path)
          "created by reprocess"
          (judged rid r.state superseded "reprocess" note "human requested reprocessing" db) refl
          refl
          (judged-LogTells rid r.state superseded "reprocess" note _ r db (supersedes r.state at)
            checked.run_found refl h)))
      (λ t same. rw same h) (reprocess_lem rid output_prefix log_path note db)

marked-LogTells :
    (p : ProcessingRun → Bool) (db : Db)
    → LogTells db
    → LogTells (record db { runs = update p set_exhausted db.runs })
marked-LogTells p db h = record {
  obs = h.obs;
  runs = Tells-rewritten h.runs p set_exhausted (λ x. refl) (λ x. refl);
}

log_exhausted-LogTells :
    (max_attempts : ℕ) (rids : List ℕ) (db : Db)
    → LogTells db
    → LogTells (log_exhausted max_attempts rids db).1
unfolding log_exhausted insert_event ◌>>◌ ◌>>=◌
log_exhausted-LogTells max_attempts [] db h = h
log_exhausted-LogTells max_attempts (rid ∷ rids) db h =
    log_exhausted-LogTells max_attempts rids _ (note-LogTells Tables.run rid _ db h)

mark_exhausted-LogTells :
    (max_attempts : ℕ) (db : Db)
    → LogTells db
    → LogTells (mark_exhausted_failed_runs max_attempts db).1
unfolding mark_exhausted_failed_runs update_returning_ids tx ◌>>=◌ ◌>>◌
mark_exhausted-LogTells max_attempts db h = rw log_exhausted-returns (
    log_exhausted-LogTells max_attempts
      (map (λ r. r.id) (select (is_newly_exhausted max_attempts db) db.runs)) _
      (marked-LogTells (is_newly_exhausted max_attempts db) db h))

mark_blocked-LogTells :
    (rid : ℕ) (reason : String) (db : Db)
    → LogTells db
    → LogTells (mark_run_retry_exhausted rid reason db).1
unfolding mark_run_retry_exhausted update_runs insert_event tx ◌>>=◌ ◌>>◌
mark_blocked-LogTells rid reason db h =
    let marked = marked-LogTells (is_unmarked_failure rid) db h in
    elim (Bool-cases (count (is_unmarked_failure rid) db.runs == 0)) [
      | inl nothing ↦ rw nothing marked
      | inr some_run ↦ rw some_run (note-LogTells Tables.run rid reason _ marked)
    ]

Step-LogTells : (n : ℕ) {a b : Db} → Step n a b → Inv n a → LogTells a → LogTells b
Step-LogTells n (Steps.admit db root reserved idle) inv =
    create_observation_auto-LogTells n root reserved db inv
Step-LogTells n (Steps.advance_obs db oid from to c other released) inv =
    transition_observation-LogTells n oid from to c db inv
Step-LogTells n (Steps.resume_deletion db oid c permit kept) inv =
    transition_observation-LogTells n oid stored deleting c db inv
Step-LogTells n (Steps.start_initial_run db o p l m at none_yet) inv =
    create_run-LogTells o.id p l db
Step-LogTells n (Steps.advance_run db rid from to c other) inv =
    transition_run-LogTells n rid from to c db inv
Step-LogTells n (Steps.retry db rid c left) inv =
    transition_run-LogTells n rid failed queued c db inv
Step-LogTells n (Steps.mark_exhausted db max_attempts) inv = mark_exhausted-LogTells max_attempts db
Step-LogTells n (Steps.mark_blocked db rid reason) inv = mark_blocked-LogTells rid reason db
Step-LogTells n (Steps.accept db rid note) inv = accept-LogTells rid note db
Step-LogTells n (Steps.discard db rid note) inv = discard-LogTells rid note db
Step-LogTells n (Steps.reprocess db rid p l note) inv = reprocess-LogTells rid p l note db
Step-LogTells n (Steps.log db kind entity reason) inv = record_event-LogTells kind entity reason db
Step-LogTells n (Steps.set_error db oid error) inv = set_error-LogTells oid error db

empty-LogTells : LogTells empty_db
unfolding told select replay
empty-LogTells = record {
  obs = record { tells = λ o m. elim m [ ]; silent = λ k lt. refl };
  runs = record { tells = λ r m. elim m [ ]; silent = λ k lt. refl };
}

Steps-LogTells : (n : ℕ) {db : Db} → 1 ≤ n → Steps n empty_db db → LogTells db
Steps-LogTells n room here = empty-LogTells
Steps-LogTells n room (next p s) =
    Step-LogTells n s (Steps-Inv room p (empty_db-Inv n)) (Steps-LogTells n room p)

module _ (n : ℕ) (db : Db) (room : 1 ≤ n) (reached : Steps n empty_db db) where
  -- In every reachable store the timeline of an observation is a path that the transition table
  -- allows, from its creation as PLANNED to the state of its row.
  pub replay-observation :
      (o : Observation)
      → Memᴰ o db.observations
      → replay (some none) (events_for observation o.id db) ≡ some (some (obs_state o.state))
  unfolding events_for told
  replay-observation o m = (Steps-LogTells n room reached).obs.tells o m

  -- In every reachable store the timeline of a run is a path that the transition table allows, from
  -- its creation as QUEUED to the state of its row.
  pub replay-run :
      (r : ProcessingRun)
      → Memᴰ r db.runs
      → replay (some none) (events_for Tables.run r.id db) ≡ some (some (run_state r.state))
  unfolding events_for told
  replay-run r m = (Steps-LogTells n room reached).runs.tells r m
