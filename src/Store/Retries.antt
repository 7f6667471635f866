-- ===== src/Store/Retries.antt =====
-- The retry budget of processing runs (store.py): executions are counted in the event log, and
-- exhaustion is written into the run's row.
use ska_sdp_mini_control.Prelude.{
  ℕ, ◌==◌, leb, ltb, String, Bool, not, true, false, ◌&&◌, Option, none, some, List, [], ◌∷◌, map,
  Action, ok, tx, pure, ◌>>=◌, ◌>>◌, select, any, count, update, skip, sum_where, if◌then◌else◌,
}
use ska_sdp_mini_control.Prelude.Format.{concat, decimal}
use ska_sdp_mini_control.Models.{
  Observation, ProcessingRun, obs_state_eq, run_state_eq, queued, running, failed, stored,
}
use ska_sdp_mini_control.Store.Tables.{
  Db, Event, EntityState, obs_state, run_state, run, entity_eq, insert_event, update_runs,
  is_active, of_observation,
}

abbrev pub state_is : EntityState → Option EntityState → Bool
state_is (obs_state s) (some (obs_state t)) = obs_state_eq t s
state_is (run_state s) (some (run_state t)) = run_state_eq t s
state_is _ _ = false

-- An event that records the run's move QUEUED -> RUNNING.
abbrev pub is_execution : ℕ → Event → Bool
is_execution rid e =
    entity_eq e.entity_type run
    && (e.entity_id == rid
        && (state_is (run_state queued) e.from_state && state_is (run_state running) e.to_state))

-- Store.run_execution_attempts
unfoldable pub run_execution_attempts : ℕ → Db → ℕ
run_execution_attempts rid db = count (is_execution rid) db.events

-- Store.observation_execution_attempts: the join pairs each event with its run's row.
unfoldable pub observation_execution_attempts : ℕ → Db → ℕ
observation_execution_attempts oid db =
    sum_where (of_observation oid) (λ r. run_execution_attempts r.id db) db.runs

-- A failed run, not yet marked, that has used up its executions.
abbrev pub is_newly_exhausted : ℕ → Db → ProcessingRun → Bool
is_newly_exhausted max_attempts db r =
    run_state_eq r.state failed
    && (not r.retry_exhausted && leb max_attempts (run_execution_attempts r.id db))

abbrev pub set_exhausted : ProcessingRun → ProcessingRun
set_exhausted r = record r { retry_exhausted = true }

unfoldable pub exhausted_reason : ℕ → String
exhausted_reason max_attempts =
    concat ("automatic retry budget exhausted at " ∷ decimal max_attempts ∷ " execution(s)" ∷ [])

unfoldable pub log_exhausted : ℕ → List ℕ → Action Db Unit
unfolding insert_event
log_exhausted max_attempts [] = skip
log_exhausted max_attempts (rid ∷ rids) = do
  insert_event run rid none none (exhausted_reason max_attempts)
  log_exhausted max_attempts rids

-- UPDATE … RETURNING id
unfoldable pub update_returning_ids :
    (ProcessingRun → Bool) → (ProcessingRun → ProcessingRun) → Action Db (List ℕ)
update_returning_ids p f db =
    (ok (map (λ r. r.id) (select p db.runs)), record db { runs = update p f db.runs })

-- Store.mark_exhausted_failed_runs
unfoldable pub mark_exhausted_failed_runs : ℕ → Action Db (List ℕ)
unfolding update_returning_ids log_exhausted
mark_exhausted_failed_runs max_attempts = tx (λ db.
    (do
      ids ← update_returning_ids (is_newly_exhausted max_attempts db) set_exhausted
      log_exhausted max_attempts ids
      pure ids)
      db)

abbrev pub is_unmarked_failure : ℕ → ProcessingRun → Bool
is_unmarked_failure rid r = r.id == rid && (run_state_eq r.state failed && not r.retry_exhausted)

-- Store.mark_run_retry_exhausted
unfoldable pub mark_run_retry_exhausted : ℕ → String → Action Db Unit
unfolding update_runs insert_event
mark_run_retry_exhausted rid reason = tx (do
  n ← update_runs (is_unmarked_failure rid) set_exhausted
  if n == 0 then skip else insert_event run rid none none reason)

abbrev pub has_stored_observation : Db → ProcessingRun → Bool
has_stored_observation db r =
    any (λ o. o.id == r.observation_id && obs_state_eq o.state stored) db.observations

abbrev pub has_other_active : Db → ProcessingRun → Bool
has_other_active db r =
    any
      (λ other.
        of_observation r.observation_id other && (not (other.id == r.id) && is_active other))
      db.runs

abbrev pub is_retryable : ℕ → Db → ProcessingRun → Bool
is_retryable max_attempts db r =
    run_state_eq r.state failed
    && (not r.retry_exhausted
        && (has_stored_observation db r
            && (not (has_other_active db r) && ltb (run_execution_attempts r.id db) max_attempts)))

-- Store.list_retryable_failed_runs: the runs, each with its number of executions.
unfoldable pub list_retryable_failed_runs : ℕ → Db → List (ProcessingRun × ℕ)
list_retryable_failed_runs max_attempts db =
    map (λ r. (r, run_execution_attempts r.id db)) (select (is_retryable max_attempts db) db.runs)

-- Store.list_stored_observations_without_runs
unfoldable pub list_stored_observations_without_runs : Db → List Observation
list_stored_observations_without_runs db =
    select (λ o. obs_state_eq o.state stored && not (any (of_observation o.id) db.runs))
      db.observations
