-- ===== src/Tests/Reachable.antt =====
-- The guarantees at a store that the controller reaches.
use ska_sdp_mini_control.Prelude.{
  ◌≡◌, ◌≤◌, false, ◌&&◌, ◌⊎◌, refl, arith, suc, ok, Memᴰ, tx, ◌>>=◌, ◌>>◌, count, update, any,
  max_where, find,
}
use ska_sdp_mini_control.Prelude.Format.{concat, zero_pad}
use ska_sdp_mini_control.Models.{
  planned, observing, awaiting_qa, accepted, deleted, obs_transitions, run_transitions,
}
use ska_sdp_mini_control.Store.Tables.{is_active, of_observation}
use ska_sdp_mini_control.Store.Observations.{
  create_observation_auto, transition_observation, ms_name, move_observation, change_observation,
}
use ska_sdp_mini_control.Store.Runs.{
  create_run, transition_run, next_attempt, move_run, change_run, has_active_runs,
}
use ska_sdp_mini_control.Store.Retries.{run_execution_attempts}
use ska_sdp_mini_control.Store.Verdicts.{
  accept_run_and_begin_deletion, reprocess_run_and_create, judge_run, begin_deletion,
  require_verdict_on,
}
use ska_sdp_mini_control.Store.Verdicts.Outcomes.{judged, deletion_begun, reprocessed}
use ska_sdp_mini_control.Protocol.Invariant.{Permit, Drop}
use ska_sdp_mini_control.Protocol.Guarantees.{
  accept_goes_through, reprocess_goes_through, executions-le-max_attempts, active_runs-le-1,
  deleting_is_authorised, deleted_is_authorised, deleting_has_no_active_run, reservation_released,
}
use ska_sdp_mini_control.Tests.History.{
  product, process_log, awaiting_db, failed_db, accepted_db, deleted_db, stored_obs, awaiting_run,
  failed_run, deleting_obs, awaiting_Steps, failed_Steps, accepted_Steps, deleted_Steps,
}

accept_goes_through_example : accept_run_and_begin_deletion 1 "good" awaiting_db ≡ (
  ok 1,
  deletion_begun 1 "accepted product permits raw deletion"
      (judged 1 awaiting_qa accepted "accept" "good" "human QA accepted" awaiting_db),
)
unfolding create_observation_auto transition_observation move_observation change_observation
    obs_transitions create_run transition_run run_transitions next_attempt move_run change_run tx
    ◌>>=◌ ◌>>◌ count update any max_where find ms_name concat zero_pad
accept_goes_through_example =
    accept_goes_through 2 awaiting_db (omega arith) awaiting_Steps 1 "good" awaiting_run stored_obs
      refl refl refl refl

reprocess_goes_through_example :
    reprocess_run_and_create 1 product process_log "again" failed_db
    ≡ (ok (suc failed_db.run_seq), reprocessed 1 failed_run product process_log "again" failed_db)
unfolding create_observation_auto transition_observation move_observation change_observation
    obs_transitions create_run transition_run run_transitions next_attempt move_run change_run tx
    ◌>>=◌ ◌>>◌ count update any max_where find ms_name concat zero_pad
reprocess_goes_through_example =
    reprocess_goes_through 2 failed_db (omega arith) failed_Steps 1 product process_log "again"
      failed_run stored_obs refl refl refl refl

executions-le-max_attempts_example : run_execution_attempts 1 awaiting_db ≤ 2
unfolding create_observation_auto transition_observation move_observation change_observation
    obs_transitions create_run transition_run run_transitions next_attempt move_run change_run tx
    ◌>>=◌ ◌>>◌ count update any max_where find
executions-le-max_attempts_example =
    executions-le-max_attempts 2 awaiting_db (omega arith) awaiting_Steps awaiting_run
      (Memᴰ.head refl)

active_runs-le-1_example : count (λ r. of_observation 1 r && is_active r) awaiting_db.runs ≤ 1
active_runs-le-1_example = active_runs-le-1 2 awaiting_db (omega arith) awaiting_Steps 1

deleting_is_authorised_example : Permit accepted_db.runs 1
unfolding create_observation_auto transition_observation move_observation change_observation
    obs_transitions create_run transition_run run_transitions next_attempt move_run change_run tx
    ◌>>=◌ ◌>>◌ count update any max_where find ms_name concat zero_pad accept_run_and_begin_deletion
    judge_run begin_deletion require_verdict_on
deleting_is_authorised_example =
    deleting_is_authorised 2 accepted_db (omega arith) accepted_Steps deleting_obs (Memᴰ.head refl)
      refl

deleted_is_authorised_example : Permit deleted_db.runs 1 ⊎ Drop deleted_db.events 1
unfolding create_observation_auto transition_observation move_observation change_observation
    obs_transitions create_run transition_run run_transitions next_attempt move_run change_run tx
    ◌>>=◌ ◌>>◌ count update any max_where find ms_name concat zero_pad accept_run_and_begin_deletion
    judge_run begin_deletion require_verdict_on
deleted_is_authorised_example =
    deleted_is_authorised 2 deleted_db (omega arith) deleted_Steps
      (record deleting_obs { state = deleted; size_bytes = 0 }) (Memᴰ.head refl) refl

deleting_has_no_active_run_example : has_active_runs 1 accepted_db ≡ false
unfolding create_observation_auto transition_observation move_observation change_observation
    obs_transitions create_run transition_run run_transitions next_attempt move_run change_run tx
    ◌>>=◌ ◌>>◌ count update any max_where find ms_name concat zero_pad accept_run_and_begin_deletion
    judge_run begin_deletion require_verdict_on
deleting_has_no_active_run_example =
    deleting_has_no_active_run 2 accepted_db (omega arith) accepted_Steps deleting_obs
      (Memᴰ.head refl) refl

reservation_released_example :
    (stored_obs.state ≡ planned) ⊎ (stored_obs.state ≡ observing) ⊎ (stored_obs.reserved_bytes ≡ 0)
unfolding create_observation_auto transition_observation move_observation change_observation
    obs_transitions create_run transition_run run_transitions next_attempt move_run change_run tx
    ◌>>=◌ ◌>>◌ count update any max_where find ms_name concat zero_pad
reservation_released_example =
    reservation_released 2 awaiting_db (omega arith) awaiting_Steps stored_obs (Memᴰ.head refl)
