-- ===== src/Protocol/Steps.antt =====
-- The transactions of the controller and of its operators, as steps of the store: each method of
-- store.py under what its callers in scheduler.py, reconcile.py, storage.py and qa.py have seen
-- to. Any interleaving of their transactions is a sequence of steps.
use ska_sdp_mini_control.Prelude.{
  ℕ, ◌<◌, ◌≤◌, ◌≡◌, ◌≢◌, inl, inr, arith, any, any-mem, refl, false, true, some, none, String, Memᴰ,
}
use ska_sdp_mini_control.Models.{
  FilePath, Observation, ObservationState, RunState, observing, stored, deleting, queued, failed,
  accepted,
}
use ska_sdp_mini_control.Models.Graph.{run_state_eq_iff}
use ska_sdp_mini_control.Store.Tables.{Db, EntityType, of_observation}
use ska_sdp_mini_control.Store.Observations.{
  ObservationChange, create_observation_auto, transition_observation, record_event,
  force_observation_fields,
}
use ska_sdp_mini_control.Store.Runs.{RunChange, create_run, transition_run, has_accepted_run}
use ska_sdp_mini_control.Store.Retries.{
  run_execution_attempts, mark_exhausted_failed_runs, mark_run_retry_exhausted,
}
use ska_sdp_mini_control.Store.Verdicts.{
  accept_run_and_begin_deletion, reprocess_run_and_create, discard_failed_run_and_begin_deletion,
}
use ska_sdp_mini_control.Protocol.Invariant.{Inv, Permit, is_under_way}
use ska_sdp_mini_control.Protocol.Moves.{Inv-transition_observation, Inv-transition_run}
use ska_sdp_mini_control.Protocol.Verdicts.{Inv-accept, Inv-discard, Inv-reprocess}
use ska_sdp_mini_control.Protocol.Creation.{
  Inv-create_observation_auto, Inv-create_run, Inv-record_event, Inv-force_error,
  Inv-mark_run_retry_exhausted, Inv-mark_exhausted_failed_runs,
}

-- `n` is max_processing_attempts.
pub data Step (n : ℕ) : Db → Db → Type 0 where
  -- Scheduler._new_observation, of which tick has seen that no observation is under way
  admit :
      (db : Db) (root : FilePath) (reserved : ℕ)
      → any is_under_way db.observations ≡ false
      → Step n db (create_observation_auto root reserved db).1
  -- A transition that does not begin a deletion; it releases the reservation, unless it starts
  -- the observing.
  advance_obs :
      (db : Db) (oid : ℕ) (from to : ObservationState) (c : ObservationChange)
      → to ≢ deleting
      → (to ≢ observing → c.reserved_bytes ≡ some 0)
      → Step n db (transition_observation oid from to c db).1
  -- startup_reconcile, of an observation with an accepted run
  resume_deletion :
      (db : Db) (oid : ℕ) (c : ObservationChange)
      → has_accepted_run oid db ≡ true
      → c.reserved_bytes ≡ none
      → Step n db (transition_observation oid stored deleting c db).1
  -- Scheduler._create_initial_run, of a STORED observation without runs
  start_initial_run :
      (db : Db) (o : Observation) (output_prefix log_path : FilePath)
      → Memᴰ o db.observations
      → o.state ≡ stored
      → any (of_observation o.id) db.runs ≡ false
      → Step n db (create_run o.id output_prefix log_path db).1
  advance_run :
      (db : Db) (rid : ℕ) (from to : RunState) (c : RunChange)
      → to ≢ queued
      → Step n db (transition_run rid from to c db).1
  -- Scheduler._retry_failed_runs, of a run that has executions left
  retry :
      (db : Db) (rid : ℕ) (c : RunChange)
      → run_execution_attempts rid db < n
      → Step n db (transition_run rid failed queued c db).1
  mark_exhausted :
      (db : Db) (max_attempts : ℕ) → Step n db (mark_exhausted_failed_runs max_attempts db).1
  mark_blocked :
      (db : Db) (rid : ℕ) (reason : String) → Step n db (mark_run_retry_exhausted rid reason db).1
  accept :
      (db : Db) (rid : ℕ) (note : String) → Step n db (accept_run_and_begin_deletion rid note db).1
  discard :
      (db : Db) (rid : ℕ) (note : String)
      → Step n db (discard_failed_run_and_begin_deletion rid note db).1
  reprocess :
      (db : Db) (rid : ℕ) (output_prefix log_path : FilePath) (note : String)
      → Step n db (reprocess_run_and_create rid output_prefix log_path note db).1
  log :
      (db : Db) (kind : EntityType) (entity : ℕ) (reason : String)
      → Step n db (record_event kind entity reason db).1
  set_error :
      (db : Db) (oid : ℕ) (error : String)
      → Step n db (force_observation_fields oid none (some error) db).1

-- Any number of steps.
pub data Steps (n : ℕ) (db : Db) : Db → Type 0 where
  here : Steps n db db
  next : {t u : Db} → Steps n db t → Step n t u → Steps n db u

pub Steps-trans : {n : ℕ} {a b c : Db} → Steps n a b → Steps n b c → Steps n a c
Steps-trans p here = p
Steps-trans p (next q s) = next (Steps-trans p q) s

Permit-accepted : (oid : ℕ) (db : Db) → has_accepted_run oid db ≡ true → Permit db.runs oid
unfolding has_accepted_run
Permit-accepted oid db h =
    let (r, m, t) = any-mem _ db.runs h in
    (r, m, ground arith, ground (arith, run_state_eq_iff r.state accepted))

pub Step-Inv : {n : ℕ} {a b : Db} → 1 ≤ n → Step n a b → Inv n a → Inv n b
unfolding run_execution_attempts
Step-Inv {n} room (admit db root reserved idle) inv =
    Inv-create_observation_auto n db inv root reserved
Step-Inv {n} room (advance_obs db oid from to c other released) inv =
    Inv-transition_observation n db inv oid from to c
      (λ at legal. record { permit = λ e. absurd (other e); release = λ e. inl (released e) })
Step-Inv {n} room (resume_deletion db oid c permit kept) inv =
    Inv-transition_observation n db inv oid stored deleting c (λ at legal. record {
      permit = λ e. Permit-accepted oid db permit;
      release = λ e. inr (kept, refl);
    })
Step-Inv {n} room (start_initial_run db o output_prefix log_path m at none_yet) inv =
    Inv-create_run n db inv o output_prefix log_path room m (rw at refl) none_yet
Step-Inv {n} room (advance_run db rid from to c other) inv =
    Inv-transition_run n db inv rid from to c (λ at e. absurd (other e))
Step-Inv {n} room (retry db rid c left) inv =
    Inv-transition_run n db inv rid failed queued c (λ at e. left)
Step-Inv {n} room (mark_exhausted db max_attempts) inv =
    Inv-mark_exhausted_failed_runs n max_attempts db inv
Step-Inv {n} room (mark_blocked db rid reason) inv =
    Inv-mark_run_retry_exhausted n db inv rid reason
Step-Inv {n} room (accept db rid note) inv = Inv-accept n db rid note inv
Step-Inv {n} room (discard db rid note) inv = Inv-discard n db rid note inv
Step-Inv {n} room (reprocess db rid output_prefix log_path note) inv =
    Inv-reprocess n db rid output_prefix log_path note room inv
Step-Inv {n} room (log db kind entity reason) inv = Inv-record_event n db inv kind entity reason
Step-Inv {n} room (set_error db oid error) inv = Inv-force_error n db inv oid error

-- Any sequence of the transactions keeps the invariant of the store, where a run may be executed
-- at least once.
pub Steps-Inv : {n : ℕ} {a b : Db} → 1 ≤ n → Steps n a b → Inv n a → Inv n b
Steps-Inv room here inv = inv
Steps-Inv room (next p s) inv = Step-Inv room s (Steps-Inv room p inv)
