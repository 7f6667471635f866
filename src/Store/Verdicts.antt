-- ===== src/Store/Verdicts.antt =====
-- The three operator verdicts of class Store (store.py), each one transaction over a run, its
-- observation and the event log.
pub mod Outcomes
pub mod Returns
use ska_sdp_mini_control.Prelude.{
  ℕ, suc, ◌+◌, ◌==◌, String, Bool, not, ◌&&◌, ◌||◌, Option, none, some, List, [], ◌∷◌, Action, ok,
  raise_if, tx, gets, or_raise, pure, key_error, transition_error, ◌>>=◌, ◌>>◌,
}
use ska_sdp_mini_control.Prelude.Format.{concat, decimal}
use ska_sdp_mini_control.Models.{
  Observation, ProcessingRun, ObservationState, RunState, FilePath, obs_state_eq, run_state_eq,
  run_state_in, run_transitions, run_value, queued, awaiting_qa, accepted, superseded, failed,
  discarded, stored, deleting,
}
use ska_sdp_mini_control.Store.Tables.{
  Db, observation, obs_state, run_state, obs_in_state, run_in_state, obs_row, run_row, insert_event,
  update_observations, update_runs,
}
use ska_sdp_mini_control.Store.Tables
use ska_sdp_mini_control.Store.Observations.{obs_guard_failed}
use ska_sdp_mini_control.Store.Runs.{
  has_other_active_runs, illegal_run_move, insert_run, run_guard_failed,
}

pub not_stored : ℕ → String
not_stored oid = concat ("observation " ∷ decimal oid ∷ " is not STORED" ∷ [])

pub other_active : ℕ → String
other_active oid = concat ("observation " ∷ decimal oid ∷ " has another active run" ∷ [])

pub not_awaiting_qa : ℕ → String
not_awaiting_qa rid = concat ("run " ∷ decimal rid ∷ " is not awaiting QA" ∷ [])

pub not_failed : ℕ → String
not_failed rid = concat ("run " ∷ decimal rid ∷ " is not FAILED" ∷ [])

pub not_reprocessable : ℕ → RunState → String
not_reprocessable rid s =
    concat ("run " ∷ decimal rid ∷ " is not reprocessable from " ∷ run_value s ∷ [])

-- The reads that open each transaction: the run's row, and then its observation, which must be
-- STORED and have no other active run.
unfoldable pub require_run : ℕ → Action Db ProcessingRun
require_run rid = do row ← gets (run_row rid); or_raise row (key_error rid)

unfoldable pub require_free_observation : ℕ → ℕ → Action Db Unit
unfolding has_other_active_runs
require_free_observation oid rid = do
  row ← gets (obs_row oid)
  obs ← or_raise row (key_error oid)
  raise_if (not (obs_state_eq obs.state stored)) (transition_error (not_stored oid))
  other ← gets (has_other_active_runs oid rid)
  raise_if other (transition_error (other_active oid))

abbrev pub set_verdict : RunState → String → String → ProcessingRun → ProcessingRun
set_verdict new verdict note r = record r {
  state = new;
  qa_verdict = some verdict;
  qa_note = some note;
}

-- The guarded UPDATE of the run with its event.
unfoldable pub judge_run : ℕ → RunState → RunState → String → String → String → Action Db Unit
unfolding update_runs insert_event
judge_run rid expected new verdict note reason = do
  n ← update_runs (run_in_state rid expected) (set_verdict new verdict note)
  raise_if (not (n == 1)) (transition_error (run_guard_failed rid expected))
  insert_event Tables.run rid (some (run_state expected)) (some (run_state new)) reason

abbrev pub set_deleting : Observation → Observation
set_deleting o = record o { state = deleting }

-- The guarded UPDATE of the observation with its event.
unfoldable pub begin_deletion : ℕ → String → Action Db Unit
unfolding update_observations insert_event
begin_deletion oid reason = do
  n ← update_observations (obs_in_state oid stored) set_deleting
  raise_if (not (n == 1)) (transition_error (obs_guard_failed oid stored))
  insert_event observation oid (some (obs_state stored)) (some (obs_state deleting)) reason

-- The reads of accept and discard: the run in the one state that the verdict is for.
unfoldable pub require_verdict_on : ℕ → RunState → String → Action Db ProcessingRun
unfolding require_run require_free_observation
require_verdict_on rid expected refusal = do
  run ← require_run rid
  raise_if (not (run_state_eq run.state expected)) (transition_error refusal)
  require_free_observation run.observation_id rid
  pure run

-- Store.accept_run_and_begin_deletion
unfoldable pub accept_run_and_begin_deletion : ℕ → String → Action Db ℕ
accept_run_and_begin_deletion rid note = tx (do
  run ← require_verdict_on rid awaiting_qa (not_awaiting_qa rid)
  judge_run rid awaiting_qa accepted "accept" note "human QA accepted"
  begin_deletion run.observation_id "accepted product permits raw deletion"
  pure run.observation_id)

abbrev pub is_reprocessable : RunState → Bool
is_reprocessable s = run_state_in s (awaiting_qa ∷ failed ∷ [])

-- The reads of reprocess.
unfoldable pub require_reprocessable : ℕ → Action Db ProcessingRun
unfolding require_run require_free_observation
require_reprocessable rid = do
  run ← require_run rid
  raise_if (not (is_reprocessable run.state)) (transition_error (not_reprocessable rid run.state))
  raise_if (not (run_state_in superseded (run_transitions run.state)))
      (transition_error (illegal_run_move run.state superseded))
  require_free_observation run.observation_id rid
  pure run

-- The INSERT of the replacement run, with its event.
unfoldable pub insert_replacement : ProcessingRun → FilePath → FilePath → Action Db ℕ
unfolding insert_run insert_event
insert_replacement run output_prefix log_path = do
  new_rid ← insert_run run.observation_id (run.attempt + 1) output_prefix log_path
  insert_event Tables.run new_rid none (some (run_state queued)) "created by reprocess"
  pure new_rid

-- Store.reprocess_run_and_create
unfoldable pub reprocess_run_and_create : ℕ → FilePath → FilePath → String → Action Db ℕ
reprocess_run_and_create rid output_prefix log_path note = tx (do
  run ← require_reprocessable rid
  judge_run rid run.state superseded "reprocess" note "human requested reprocessing"
  insert_replacement run output_prefix log_path)

-- Store.discard_failed_run_and_begin_deletion
unfoldable pub discard_failed_run_and_begin_deletion : ℕ → String → Action Db ℕ
discard_failed_run_and_begin_deletion rid note = tx (do
  run ← require_verdict_on rid failed (not_failed rid)
  judge_run rid failed discarded "discard" note
      "operator discarded raw data after exhausted processing failure"
  begin_deletion run.observation_id "operator discard permits raw deletion"
  pure run.observation_id)
