-- ===== src/Tests/Timelines.antt =====
-- The timelines of the rows of one history, read to their ends, and a row as its columns.
use ska_sdp_mini_control.Prelude.{
  ◌≡◌, ◌↔◌, arith, refl, ok, some, none, Memᴰ, tx, ◌>>=◌, ◌>>◌, count, update, any, max_where, find,
}
use ska_sdp_mini_control.Prelude.Format.{concat, zero_pad}
use ska_sdp_mini_control.Models.{run_value, deleted, awaiting_qa, obs_transitions, run_transitions}
use ska_sdp_mini_control.Store.Tables.{observation, run, obs_state, run_state}
use ska_sdp_mini_control.Store.Observations.{
  create_observation_auto, transition_observation, ms_name, move_observation, change_observation,
  events_for,
}
use ska_sdp_mini_control.Store.Runs.{create_run, transition_run, next_attempt, move_run, change_run}
use ska_sdp_mini_control.Store.Verdicts.{
  accept_run_and_begin_deletion, judge_run, begin_deletion, require_verdict_on,
}
use ska_sdp_mini_control.Store.Records.{
  RunColumns, run_state_of, from_run_row, run_columns, from_run_row_lem,
}
use ska_sdp_mini_control.Protocol.Timeline.{replay}
use ska_sdp_mini_control.Protocol.Timeline.Verdicts.{replay-observation, replay-run}
use ska_sdp_mini_control.Tests.History.{
  product, process_log, deleting_obs, awaiting_run, awaiting_db, deleted_db, awaiting_Steps,
  deleted_Steps,
}

replay-observation_example :
    replay (some none) (events_for observation 1 deleted_db) ≡ some (some (obs_state deleted))
unfolding create_observation_auto transition_observation move_observation change_observation
    obs_transitions create_run transition_run run_transitions next_attempt move_run change_run tx
    ◌>>=◌ ◌>>◌ count update any max_where find ms_name concat zero_pad accept_run_and_begin_deletion
    judge_run begin_deletion require_verdict_on
replay-observation_example =
    replay-observation 2 deleted_db (omega arith) deleted_Steps
      (record deleting_obs { state = deleted; size_bytes = 0 }) (Memᴰ.head refl)

replay-run_example :
    replay (some none) (events_for run 1 awaiting_db) ≡ some (some (run_state awaiting_qa))
unfolding create_observation_auto transition_observation move_observation change_observation
    obs_transitions create_run transition_run run_transitions next_attempt move_run change_run tx
    ◌>>=◌ ◌>>◌ count update any max_where find
replay-run_example =
    replay-run 2 awaiting_db (omega arith) awaiting_Steps awaiting_run (Memᴰ.head refl)

-- A row of the table of runs, as SQLite keeps it.
abbrev awaiting_columns : RunColumns
awaiting_columns = record {
  id = 1;
  observation_id = 1;
  attempt = 1;
  state = "AWAITING_QA";
  output_prefix = product;
  log_path = process_log;
  exit_code = none;
  qa_verdict = none;
  qa_note = none;
  retry_exhausted = 0;
}

from_run_row_lem_example :
    (from_run_row awaiting_columns ≡ ok awaiting_run)
    ↔ (awaiting_columns ≡ run_columns awaiting_run)
from_run_row_lem_example = from_run_row_lem awaiting_columns awaiting_run (omega arith)

reads : from_run_row awaiting_columns ≡ ok awaiting_run
unfolding from_run_row run_state_of run_value find
reads = refl

unknown_state : run_state_of "LOST" ≡ none
unfolding run_state_of run_value find
unknown_state = refl
