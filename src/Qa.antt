-- ===== src/Qa.antt =====
-- qa.py: the operator's verdicts, with the checks of the data directory around the transactions of
-- the store.
pub mod Outcomes
pub mod Names
use ska_sdp_mini_control.Prelude.{
  ℕ, ◌+◌, String, Bool, not, ◌||◌, List, [], ◌∷◌, ◌++◌, Action, raise_if, gets, ◌>>=◌, ◌>>◌,
  value_error,
}
use ska_sdp_mini_control.Prelude.Format.{concat, zero_pad}
use ska_sdp_mini_control.Models.{
  FilePath, Observation, ProcessingRun, obs_state_eq, run_state_eq, run_state_in, stored,
  awaiting_qa, failed,
}
use ska_sdp_mini_control.Files.{exists}
use ska_sdp_mini_control.Store.Tables.{Db}
use ska_sdp_mini_control.Store.Observations.{get_observation}
use ska_sdp_mini_control.Store.Runs.{get_run, has_other_active_runs, list_human_actionable_runs}
use ska_sdp_mini_control.Store.Verdicts.{
  accept_run_and_begin_deletion, reprocess_run_and_create, discard_failed_run_and_begin_deletion,
}
use ska_sdp_mini_control.Storage.{World, on_db}
use ska_sdp_mini_control.Storage.Deletion.{finish_observation_deletion}

-- list_qa_items
unfoldable pub list_qa_items : Db → List ProcessingRun
list_qa_items db = list_human_actionable_runs db

-- accept_run
unfoldable pub accept_run : FilePath → ℕ → String → Action World Unit
accept_run root rid note = do
  run ← on_db (get_run rid)
  raise_if (not (run_state_eq run.state awaiting_qa)) (value_error "run is not awaiting QA")
  obs ← on_db (get_observation run.observation_id)
  raise_if (not (obs_state_eq obs.state stored)) (value_error "observation is not STORED")
  there ← gets (λ w. exists obs.ms_path w.files)
  raise_if (not there) (value_error "raw visibility is unavailable")
  other ← gets (λ w. has_other_active_runs obs.id run.id w.db)
  raise_if other (value_error "observation has another non-terminal processing run")
  on_db (accept_run_and_begin_deletion run.id note)
  finish_observation_deletion root obs.id

unfoldable pub product_prefix : FilePath → ℕ → ℕ → FilePath
product_prefix root oid attempt =
    root
    ++ "products"
      ∷ concat ("obs-" ∷ zero_pad 6 oid ∷ [])
      ∷ concat ("run-" ∷ zero_pad 3 attempt ∷ [])
      ∷ "product"
      ∷ []

unfoldable pub process_log : FilePath → ℕ → ℕ → FilePath
process_log root oid attempt =
    root
    ++ "logs" ∷ concat ("process-" ∷ zero_pad 6 oid ∷ "-" ∷ zero_pad 3 attempt ∷ ".log" ∷ []) ∷ []

-- reprocess_run
unfoldable pub reprocess_run : FilePath → ℕ → String → Action World ℕ
reprocess_run root rid note = do
  run ← on_db (get_run rid)
  raise_if (not (run_state_in run.state (awaiting_qa ∷ failed ∷ [])))
      (value_error "run is neither awaiting QA nor FAILED")
  obs ← on_db (get_observation run.observation_id)
  there ← gets (λ w. exists obs.ms_path w.files)
  raise_if (not (obs_state_eq obs.state stored) || not there)
      (value_error "raw visibility is unavailable")
  other ← gets (λ w. has_other_active_runs obs.id run.id w.db)
  raise_if other (value_error "observation already has another non-terminal processing run")
  on_db (
      reprocess_run_and_create run.id (product_prefix root obs.id (run.attempt + 1))
        (process_log root obs.id (run.attempt + 1)) note)

-- discard_failed_run
unfoldable pub discard_failed_run : FilePath → ℕ → String → Action World Unit
discard_failed_run root rid note = do
  run ← on_db (get_run rid)
  raise_if (not (run_state_eq run.state failed)) (value_error "only FAILED runs can be discarded")
  obs ← on_db (get_observation run.observation_id)
  raise_if (not (obs_state_eq obs.state stored)) (value_error "observation is not STORED")
  there ← gets (λ w. exists obs.ms_path w.files)
  raise_if (not there) (value_error "raw visibility is unavailable")
  other ← gets (λ w. has_other_active_runs obs.id run.id w.db)
  raise_if other (value_error "observation already has another non-terminal processing run")
  oid ← on_db (discard_failed_run_and_begin_deletion run.id note)
  finish_observation_deletion root oid
