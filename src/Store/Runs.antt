-- ===== src/Store/Runs.antt =====
-- The methods of class Store on processing runs (store.py).
pub mod Outcomes
use ska_sdp_mini_control.Prelude.{
  ℕ, suc, ◌+◌, ◌==◌, String, Bool, not, true, false, ◌&&◌, ◌||◌, Option, none, some, List, [], ◌∷◌,
  ◌++◌, Action, ok, raise_if, tx, gets, or_raise, pure, key_error, transition_error,
  integrity_error, ◌>>=◌, ◌>>◌, select, any, max_where, count,
}
use ska_sdp_mini_control.Prelude.Int.{ℤ}
use ska_sdp_mini_control.Prelude.Format.{concat, decimal}
use ska_sdp_mini_control.Models.{
  ProcessingRun, RunState, FilePath, run_state_eq, run_state_in, run_transitions, run_value, queued,
  running, awaiting_qa, accepted, failed,
}
use ska_sdp_mini_control.Store.Tables.{
  Db, Event, EntityState, run, run_state, entity_eq, obs_has_id, run_in_state, run_row,
  of_observation, insert_event, update_runs, is_active, set_some_if,
}

abbrev pub new_run : ℕ → ℕ → ℕ → FilePath → FilePath → ProcessingRun
new_run rid oid attempt output_prefix log_path = record {
  id = rid;
  observation_id = oid;
  attempt = attempt;
  state = queued;
  output_prefix = output_prefix;
  log_path = log_path;
  exit_code = none;
  qa_verdict = none;
  qa_note = none;
  retry_exhausted = false;
}

abbrev pub append_run : ProcessingRun → Db → Db
append_run r db = record db { runs = db.runs ++ r ∷ []; run_seq = r.id }

abbrev pub is_attempt : ℕ → ℕ → ProcessingRun → Bool
is_attempt oid attempt r = of_observation oid r && r.attempt == attempt

-- INSERT INTO processing_runs, under UNIQUE(observation_id, attempt) and the foreign key.
unfoldable pub insert_run : ℕ → ℕ → FilePath → FilePath → Action Db ℕ
insert_run oid attempt output_prefix log_path = do
  taken ← gets (λ db. any (is_attempt oid attempt) db.runs)
  raise_if taken (
      integrity_error
        "UNIQUE constraint failed: processing_runs.observation_id, processing_runs.attempt")
  known ← gets (λ db. any (obs_has_id oid) db.observations)
  raise_if (not known) (integrity_error "FOREIGN KEY constraint failed")
  λ db. (
    ok (suc db.run_seq),
    append_run (new_run (suc db.run_seq) oid attempt output_prefix log_path) db,
  )

-- SELECT COALESCE(MAX(attempt),0)+1
unfoldable pub next_attempt : ℕ → Db → ℕ
next_attempt oid db = max_where (of_observation oid) (λ r. r.attempt) db.runs + 1

-- Store.create_run
unfoldable pub create_run : ℕ → FilePath → FilePath → Action Db ℕ
unfolding insert_run insert_event next_attempt
create_run oid output_prefix log_path = tx (do
  attempt ← gets (next_attempt oid)
  rid ← insert_run oid attempt output_prefix log_path
  insert_event run rid none (some (run_state queued)) "created"
  pure rid)

-- Store.get_run
unfoldable pub get_run : ℕ → Action Db ProcessingRun
get_run rid = do row ← gets (run_row rid); or_raise row (key_error rid)

-- The two clauses of the query; a missing or empty list of states does not restrict the answer.
abbrev pub is_wanted : List RunState → ProcessingRun → Bool
is_wanted [] r = true
is_wanted (s ∷ ss) r = run_state_in r.state (s ∷ ss)

abbrev pub belongs_to : Option ℕ → ProcessingRun → Bool
belongs_to none r = true
belongs_to (some oid) r = of_observation oid r

-- Store.list_runs
unfoldable pub list_runs : List RunState → Option ℕ → Db → List ProcessingRun
list_runs states oid db = select (λ r. is_wanted states r && belongs_to oid r) db.runs

-- What `qa list` shows: the WHERE clause of Store.list_human_actionable_runs.
abbrev pub is_human_actionable : ProcessingRun → Bool
is_human_actionable r =
    run_state_eq r.state awaiting_qa || (run_state_eq r.state failed && r.retry_exhausted)

-- Store.list_human_actionable_runs
unfoldable pub list_human_actionable_runs : Db → List ProcessingRun
list_human_actionable_runs db = select is_human_actionable db.runs

-- The keyword arguments of Store.transition_run.
pub record RunChange : Type 0 where
  pub reason : String
  pub exit_code : Option ℤ
  pub qa_verdict : Option String
  pub qa_note : Option String

unfoldable pub change_run : RunState → RunChange → ProcessingRun → ProcessingRun
change_run new c r = record r {
  state = new;
  exit_code = set_some_if c.exit_code r.exit_code;
  qa_verdict = set_some_if c.qa_verdict r.qa_verdict;
  qa_note = set_some_if c.qa_note r.qa_note;
}

unfoldable pub run_guard_failed : ℕ → RunState → String
run_guard_failed rid expected =
    concat ("guard failed for run " ∷ decimal rid ∷ ": expected " ∷ run_value expected ∷ [])

unfoldable pub illegal_run_move : RunState → RunState → String
illegal_run_move from to =
    concat ("illegal run transition " ∷ run_value from ∷ "->" ∷ run_value to ∷ [])

-- UPDATE processing_runs … WHERE id=? AND state=?, its rowcount check, and the event.
unfoldable pub move_run : ℕ → RunState → RunState → RunChange → Action Db Unit
unfolding update_runs insert_event
move_run rid expected new c = do
  n ← update_runs (run_in_state rid expected) (change_run new c)
  raise_if (not (n == 1)) (transition_error (run_guard_failed rid expected))
  insert_event run rid (some (run_state expected)) (some (run_state new)) c.reason

-- Store.transition_run
unfoldable pub transition_run : ℕ → RunState → RunState → RunChange → Action Db Unit
transition_run rid expected new c = do
  raise_if (not (run_state_in new (run_transitions expected)))
      (transition_error (illegal_run_move expected new))
  tx (move_run rid expected new c)

-- Store.has_other_active_runs
unfoldable pub has_other_active_runs : ℕ → ℕ → Db → Bool
has_other_active_runs oid rid db =
    any (λ r. of_observation oid r && (not (r.id == rid) && is_active r)) db.runs

-- Store.has_active_runs
unfoldable pub has_active_runs : ℕ → Db → Bool
has_active_runs oid db = any (λ r. of_observation oid r && is_active r) db.runs

-- Store.has_accepted_run
unfoldable pub has_accepted_run : ℕ → Db → Bool
has_accepted_run oid db = any (λ r. of_observation oid r && run_state_eq r.state accepted) db.runs
