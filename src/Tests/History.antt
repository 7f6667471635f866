-- ===== src/Tests/History.antt =====
-- One observation from its admission to the deletion of its raw data, by the methods of store.py.
use ska_sdp_mini_control.Prelude.{
  ◌≡◌, refl, arith, count, update, any, max_where, some, none, false, Memᴰ, [], ◌∷◌, tx, ◌>>=◌,
  ◌>>◌,
}
use ska_sdp_mini_control.Prelude.Format.{concat, zero_pad}
use ska_sdp_mini_control.Models.{
  FilePath, Observation, ProcessingRun, planned, observing, stored, deleting, deleted, queued,
  running, awaiting_qa, failed, obs_transitions, run_transitions,
}
use ska_sdp_mini_control.Store.Tables.{Db, empty_db, add_event}
use ska_sdp_mini_control.Store.Observations.{
  ObservationChange, create_observation_auto, transition_observation, ms_name, move_observation,
  change_observation,
}
use ska_sdp_mini_control.Store.Runs.{
  RunChange, create_run, transition_run, next_attempt, move_run, change_run,
}
use ska_sdp_mini_control.Store.Verdicts.{accept_run_and_begin_deletion}
use ska_sdp_mini_control.Protocol.Steps.{
  Steps, here, next, admit, advance_obs, advance_run, accept, start_initial_run,
}

abbrev pub root : FilePath
root = "data" ∷ "observations" ∷ []

abbrev pub product : FilePath
product = "data" ∷ "products" ∷ "product" ∷ []

abbrev pub process_log : FilePath
process_log = "data" ∷ "logs" ∷ "process.log" ∷ []

abbrev pub admission : ObservationChange
admission = record { reason = "admitted"; size_bytes = none; reserved_bytes = none; error = none }

abbrev pub completion : ObservationChange
completion = record {
  reason = "completed";
  size_bytes = some 40;
  reserved_bytes = some 0;
  error = none;
}

abbrev pub plain : RunChange
plain = record { reason = ""; exit_code = none; qa_verdict = none; qa_note = none }

abbrev pub removal : ObservationChange
removal = record { reason = "removed"; size_bytes = some 0; reserved_bytes = some 0; error = none }

abbrev pub admitted_db : Db
admitted_db = (create_observation_auto root 50 empty_db).1

abbrev pub observing_db : Db
observing_db = (transition_observation 1 planned observing admission admitted_db).1

abbrev pub stored_db : Db
stored_db = (transition_observation 1 observing stored completion observing_db).1

abbrev pub queued_db : Db
queued_db = (create_run 1 product process_log stored_db).1

abbrev pub running_db : Db
running_db = (transition_run 1 queued running plain queued_db).1

abbrev pub awaiting_db : Db
awaiting_db = (transition_run 1 running awaiting_qa plain running_db).1

abbrev pub failed_db : Db
failed_db = (transition_run 1 running failed plain running_db).1

abbrev pub accepted_db : Db
accepted_db = (accept_run_and_begin_deletion 1 "good" awaiting_db).1

abbrev pub deleted_db : Db
deleted_db = (transition_observation 1 deleting deleted removal accepted_db).1

abbrev pub stored_obs : Observation
unfolding ms_name
stored_obs = record {
  id = 1;
  state = stored;
  ms_path = "data" ∷ "observations" ∷ "obs-000001.ms" ∷ [];
  size_bytes = 40;
  reserved_bytes = 0;
  error = none;
}

abbrev pub awaiting_run : ProcessingRun
awaiting_run = record {
  id = 1;
  observation_id = 1;
  attempt = 1;
  state = awaiting_qa;
  output_prefix = product;
  log_path = process_log;
  exit_code = none;
  qa_verdict = none;
  qa_note = none;
  retry_exhausted = false;
}

abbrev pub failed_run : ProcessingRun
failed_run = record awaiting_run { state = failed }

abbrev pub deleting_obs : Observation
deleting_obs = record stored_obs { state = deleting }

-- The rows that the first six transactions leave.
stored_rows : stored_db.observations ≡ stored_obs ∷ []
unfolding create_observation_auto transition_observation move_observation change_observation ms_name
    concat zero_pad obs_transitions add_event tx ◌>>=◌ ◌>>◌ count update
stored_rows = refl

awaiting_rows : awaiting_db.runs ≡ awaiting_run ∷ []
unfolding create_observation_auto transition_observation move_observation change_observation
    obs_transitions create_run transition_run run_transitions next_attempt move_run change_run tx
    ◌>>=◌ ◌>>◌ count update any max_where
awaiting_rows = refl

-- The transactions as steps, where a run may be executed twice.
pub stored_Steps : Steps 2 empty_db stored_db
unfolding create_observation_auto transition_observation
stored_Steps =
    next
      (next (next here (admit empty_db root 50 (unfold any in refl))) (
        advance_obs admitted_db 1 planned observing admission (λ e. ground arith)
          (λ e. absurd (e refl))))
      (advance_obs observing_db 1 observing stored completion (λ e. ground arith) (λ e. refl))

pub queued_Steps : Steps 2 empty_db queued_db
unfolding create_observation_auto transition_observation move_observation change_observation ms_name
    concat zero_pad obs_transitions add_event tx ◌>>=◌ ◌>>◌ count update any
queued_Steps =
    next stored_Steps
      (start_initial_run stored_db stored_obs product process_log (Memᴰ.head refl) refl refl)

pub running_Steps : Steps 2 empty_db running_db
running_Steps = next queued_Steps (advance_run queued_db 1 queued running plain (λ e. ground arith))

pub awaiting_Steps : Steps 2 empty_db awaiting_db
awaiting_Steps =
    next running_Steps (advance_run running_db 1 running awaiting_qa plain (λ e. ground arith))

pub failed_Steps : Steps 2 empty_db failed_db
failed_Steps =
    next running_Steps (advance_run running_db 1 running failed plain (λ e. ground arith))

pub accepted_Steps : Steps 2 empty_db accepted_db
accepted_Steps = next awaiting_Steps (accept awaiting_db 1 "good")

pub deleted_Steps : Steps 2 empty_db deleted_db
deleted_Steps =
    next accepted_Steps
      (advance_obs accepted_db 1 deleting deleted removal (λ e. ground arith) (λ e. refl))
