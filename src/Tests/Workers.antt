-- ===== src/Tests/Workers.antt =====
-- The workers and the tick at stores that the controller reaches.
use ska_sdp_mini_control.Prelude.{
  ◌≤◌, List, ◌≡◌, refl, arith, false, ok, String, Exc, skip, [], ◌∷◌, tx, ◌>>=◌, ◌>>◌, count,
  update, any, max_where, find,
}
use ska_sdp_mini_control.Prelude.Int.{pos}
use ska_sdp_mini_control.Prelude.Format.{concat, zero_pad}
use ska_sdp_mini_control.Prelude.Ensures.{Ensures}
use ska_sdp_mini_control.Models.{observing, running, obs_transitions}
use ska_sdp_mini_control.Store.Tables.{empty_db, obs_row, run_row}
use ska_sdp_mini_control.Store.Observations.{
  create_observation_auto, transition_observation, ms_name, move_observation, change_observation,
}
use ska_sdp_mini_control.Store.Observations.Outcomes.{obs_is}
use ska_sdp_mini_control.Store.Runs.{create_run, next_attempt}
use ska_sdp_mini_control.Store.Runs.Outcomes.{run_is}
use ska_sdp_mini_control.Storage.{World}
use ska_sdp_mini_control.Scheduler.Observe.{ObserveRun, observe}
use ska_sdp_mini_control.Scheduler.Process.{ProcessRun, process}
use ska_sdp_mini_control.Scheduler.Tick.{Tasks, Pause, tick}
use ska_sdp_mini_control.Protocol.Invariant.{is_under_way}
use ska_sdp_mini_control.Protocol.OneAtATime.{under_way-le-1}
use ska_sdp_mini_control.Scheduler.Idle.{run_until_idle}
use ska_sdp_mini_control.Protocol.Ticking.Idle.{Idle, run_until_idle_lem}
use ska_sdp_mini_control.Protocol.Steps.{Steps, here, next, admit}
use ska_sdp_mini_control.Protocol.Observing.{observe_settles}
use ska_sdp_mini_control.Protocol.Processing.{process_settles}
use ska_sdp_mini_control.Protocol.Ticking.Dispatch.{Dispatched, tick_lem}
use ska_sdp_mini_control.Prelude.Ensures.{returned}
use ska_sdp_mini_control.Tests.History.{
  root, admitted_db, queued_db, queued_Steps, failed_db, failed_Steps,
}
use ska_sdp_mini_control.Tests.Directory.{raw_files}
use ska_sdp_mini_control.Tests.Admission.{config}

abbrev planned_world : World
planned_world = record { db = admitted_db; files = raw_files; aux_cache = [] }

abbrev queued_world : World
queued_world = record { db = queued_db; files = raw_files; aux_cache = [] }

abbrev failed_world : World
failed_world = record { db = failed_db; files = raw_files; aux_cache = [] }

abbrev text_of : Exc → String
text_of exc = "error"

-- A runner that sleeps once and exits with zero.
abbrev good_run : ObserveRun
good_run = record {
  sleeps = (λ w. w) ∷ [];
  ending = λ w. w;
  outcome = ok (pos 0);
  stopping = λ w. w;
}

abbrev good_job : ProcessRun
good_job = record { slot = λ w. w; ending = λ w. w; outcome = ok (pos 0) }

pub admitted_Steps : Steps 2 empty_db admitted_db
admitted_Steps = next here (admit empty_db root 50 (unfold any in refl))

observe_settles_example :
    Ensures
      (λ _ t. Steps 2 empty_db t.db × (obs_is (obs_row 1 t.db) observing ≡ false))
      (λ _. ⊥)
      (observe text_of config good_run 1 planned_world)
unfolding create_observation_auto ms_name concat zero_pad tx ◌>>=◌ ◌>>◌ count update find
observe_settles_example =
    observe_settles 2 (omega arith) 1 text_of config good_run ((λ w h. h), tt) (λ w h. h) (λ w h. h)
      planned_world admitted_Steps refl

process_settles_example :
    Ensures
      (λ _ t. Steps 2 empty_db t.db × (run_is (run_row 1 t.db) running ≡ false))
      (λ _. ⊥)
      (process (λ image png. skip) text_of good_job 1 queued_world)
unfolding create_observation_auto transition_observation move_observation change_observation
    obs_transitions create_run next_attempt tx ◌>>=◌ ◌>>◌ count update any max_where find
process_settles_example =
    process_settles 2 (omega arith) 1 (λ image png. skip) text_of
      (λ image png w reached. returned reached) good_job (λ w h. h) (λ w h. h) queued_world
      queued_Steps refl

tick_lem_example :
    Ensures
      (λ alive t. Steps 2 empty_db t.db × Dispatched alive t.db)
      (λ _. ⊥)
      (tick text_of config (record { obs_tasks = []; run_tasks = [] }) failed_world)
tick_lem_example =
    tick_lem 2 (omega arith) text_of config refl (record { obs_tasks = []; run_tasks = [] })
      failed_world failed_Steps

under_way-le-1_example : count is_under_way admitted_db.observations ≤ 1
under_way-le-1_example = under_way-le-1 2 admitted_db (omega arith) admitted_Steps

abbrev no_tasks : Tasks
no_tasks = record { obs_tasks = []; run_tasks = [] }

-- Two rounds, in whose first sleep nothing happens and every task ends.
abbrev pauses : List Pause
pauses =
    record { meanwhile = λ w. w; left = λ alive. no_tasks }
    ∷ record { meanwhile = λ w. w; left = λ alive. alive }
    ∷ []

run_until_idle_lem_example :
    Ensures
      (λ _ t. Steps 2 empty_db t.db × Idle t.db)
      (λ t. Steps 2 empty_db t.db)
      (run_until_idle text_of config pauses no_tasks failed_world)
run_until_idle_lem_example =
    run_until_idle_lem 2 (omega arith) text_of config refl pauses no_tasks failed_world
      ((λ w h. h), ((λ w h. h), tt)) failed_Steps
