-- ===== src/Tests/Operations.antt =====
-- The theorems on single transactions at concrete stores.
use ska_sdp_mini_control.Prelude.{
  ◌≡◌, arith, none, some, ok, err, transition_error, ◌∷◌, ◌++◌, [], tx, ◌>>=◌, ◌>>◌, count, update,
  any, max_where, find,
}
use ska_sdp_mini_control.Prelude.Ensures.{Ensures}
use ska_sdp_mini_control.Models.{
  planned, observing, stored, queued, failed, obs_transitions, run_transitions,
}
use ska_sdp_mini_control.Store.Tables.{observation, obs_state, empty_db, add_event}
use ska_sdp_mini_control.Store.Observations.{
  create_observation_auto, transition_observation, ms_name, move_observation, change_observation,
}
use ska_sdp_mini_control.Store.Observations.Outcomes.{
  transition_observation_lem, create_observation_auto_lem, new_observation, obs_moved,
}
use ska_sdp_mini_control.Store.Runs.{
  create_run, transition_run, next_attempt, move_run, change_run, run_guard_failed,
}
use ska_sdp_mini_control.Store.Runs.Outcomes.{transition_run_lem}
use ska_sdp_mini_control.Store.Verdicts.{accept_run_and_begin_deletion, reprocess_run_and_create}
use ska_sdp_mini_control.Store.Verdicts.Outcomes.{Accepted, Reprocessed, accept_lem, reprocess_lem}
use ska_sdp_mini_control.Tests.History.{
  root, product, process_log, completion, plain, observing_db, queued_db, awaiting_db, failed_db,
}

accept_lem_example :
    Ensures
      (Accepted 1 "good" awaiting_db)
      (λ t. t ≡ awaiting_db)
      (accept_run_and_begin_deletion 1 "good" awaiting_db)
accept_lem_example = accept_lem 1 "good" awaiting_db

reprocess_lem_example :
    Ensures
      (Reprocessed 1 product process_log "again" failed_db)
      (λ t. t ≡ failed_db)
      (reprocess_run_and_create 1 product process_log "again" failed_db)
reprocess_lem_example = reprocess_lem 1 product process_log "again" failed_db

transition_observation_lem_example :
    transition_observation 1 observing stored completion observing_db
    ≡ (ok tt, obs_moved 1 observing stored completion observing_db)
unfolding create_observation_auto transition_observation move_observation change_observation
    obs_transitions create_run transition_run run_transitions next_attempt move_run change_run tx
    ◌>>=◌ ◌>>◌ count update any max_where find
transition_observation_lem_example =
    transition_observation_lem 1 observing stored completion observing_db (omega arith)

transition_run_lem_example :
    transition_run 1 failed queued plain queued_db
    ≡ (err (transition_error (run_guard_failed 1 failed)), queued_db)
unfolding create_observation_auto transition_observation move_observation change_observation
    obs_transitions create_run transition_run run_transitions next_attempt move_run change_run tx
    ◌>>=◌ ◌>>◌ count update any max_where find
transition_run_lem_example = transition_run_lem 1 failed queued plain queued_db (omega arith)

create_observation_auto_lem_example : create_observation_auto root 50 empty_db ≡ (
  ok 1,
  add_event observation 1 none (some (obs_state planned)) "created" (record empty_db {
    observations = new_observation 1 (root ++ ms_name 1 ∷ []) 50 ∷ [];
    obs_seq = 1;
  }),
)
create_observation_auto_lem_example = create_observation_auto_lem root 50 empty_db (omega arith)
