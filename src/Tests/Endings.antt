-- ===== src/Tests/Endings.antt =====
-- The workers whose runners do well: one observation by the fake runner, and one processing run.
use text.Mathlib.TextEquality.{eq_iff}
use ska_sdp_mini_control.Prelude.{
  ◌≡◌, refl, ok, some, false, arith, [], ◌∷◌, ◌++◌, any, find, count, update, max_where, tx, ◌>>=◌,
  ◌>>◌,
}
use ska_sdp_mini_control.Prelude.Int.{pos}
use ska_sdp_mini_control.Prelude.Format.{concat, zero_pad}
use ska_sdp_mini_control.Prelude.Ensures.{Ensures, returned}
use ska_sdp_mini_control.Models.{Observation, ProcessingRun, planned, queued, obs_transitions}
use ska_sdp_mini_control.Files.{Files, file, dir, is_dir, exists, path_eq, strip, parent}
use ska_sdp_mini_control.Files.Allowed.{Reachable}
use ska_sdp_mini_control.Store.Tables.{obs_row, run_row, add_event}
use ska_sdp_mini_control.Store.Observations.{
  create_observation_auto, transition_observation, ms_name, move_observation, change_observation,
}
use ska_sdp_mini_control.Store.Runs.{create_run, next_attempt, change_run}
use ska_sdp_mini_control.Storage.{World, apparent_size}
use ska_sdp_mini_control.Scheduler.Observe
use ska_sdp_mini_control.Scheduler.Process
use ska_sdp_mini_control.Scheduler.Process.{ProcessRun, image_of}
use ska_sdp_mini_control.Runners.Fake.Place.{Free}
use ska_sdp_mini_control.Protocol.Observing.Faked.{
  fake_work, fake_run, Known, does_well, fake_observation_lem,
}
use ska_sdp_mini_control.Protocol.Observing.Stored
use ska_sdp_mini_control.Protocol.Observing.Stored.{observe_stores}
use ska_sdp_mini_control.Protocol.Processing.Delivered.{
  claimed, claimed-Reached, EndsWell, process_delivers,
}
use ska_sdp_mini_control.Tests.History.{
  root, stored_obs, awaiting_run, admitted_db, queued_db, queued_Steps,
}
use ska_sdp_mini_control.Tests.Workers.{admitted_Steps}
use ska_sdp_mini_control.Tests.Admission.{config}
use ska_sdp_mini_control.Tests.Fakes.{runner, log_path}

abbrev place : Files
place = record {
  entries = ([], dir 0) ∷ ("data" ∷ [], dir 0) ∷ (root, dir 0) ∷ ("logs" ∷ [], dir 0) ∷ [];
  clock = 1;
  refuses = λ p. false;
}

above_root : Reachable root place
unfolding any is_dir path_eq strip
above_root [] h = refl
above_root (a ∷ []) h = ground (arith, eq_iff a "data", eq_iff "data" a)
above_root (a ∷ b ∷ []) h =
    ground
      (arith, eq_iff a "data", eq_iff "data" a, eq_iff b "observations", eq_iff "observations" b)
above_root (a ∷ b ∷ c ∷ q) h = absurd (ground arith)

above_logs : Reachable ("logs" ∷ []) place
unfolding any is_dir path_eq strip
above_logs [] h = refl
above_logs (a ∷ []) h = ground (arith, eq_iff a "logs", eq_iff "logs" a)
above_logs (a ∷ b ∷ q) h = absurd (ground arith)

place-Free : Free root "obs-000001.ms" log_path place
unfolding any is_dir path_eq strip parent
place-Free = record {
  allowed = λ p. refl;
  above = above_root;
  nothing = refl;
  log_above = above_logs;
  log_free = refl;
  apart = refl;
}

abbrev planned_obs : Observation
planned_obs = record stored_obs { state = planned; size_bytes = 0; reserved_bytes = 50 }

abbrev place_world : World
place_world = record { db = admitted_db; files = place; aux_cache = [] }

fake_observation_lem_example :
    Ensures
      (λ _ t. obs_row 1 t.db ≡ some (record stored_obs { size_bytes = 40 }))
      (λ _. ⊥)
      (Observe.observe
        (λ exc. "error")
        config
        (fake_run runner 1 (root ++ "obs-000001.ms" ∷ []) log_path 1 place_world)
        1
        place_world)
unfolding create_observation_auto ms_name concat zero_pad tx ◌>>=◌ ◌>>◌ count update find any
fake_observation_lem_example =
    fake_observation_lem 2 (omega arith) 1 config runner root "obs-000001.ms" log_path 1 place_world
      planned_obs (λ exc. "error") admitted_Steps refl refl refl place-Free refl (omega arith)

observe_stores_example :
    Ensures
      (λ _ t.
        (v : World) × (v
          ≡ fake_work runner 1
              (root ++ "obs-000001.ms" ∷ [])
              log_path
              (Stored.claimed 2 (omega arith) 1 config place_world))
        × (t.files ≡ v.files)
        × (obs_row 1 t.db
            ≡ some (record stored_obs { size_bytes = apparent_size planned_obs.ms_path t.files })))
      (λ _. ⊥)
      (Observe.observe
        (λ exc. "error")
        config
        (fake_run runner 1 (root ++ "obs-000001.ms" ∷ []) log_path 1 place_world)
        1
        place_world)
unfolding create_observation_auto ms_name concat zero_pad tx ◌>>=◌ ◌>>◌ count update find any
observe_stores_example =
    observe_stores 2 (omega arith) 1 config
      (Known 2 (omega arith) 1 config runner root "obs-000001.ms" log_path 1 place_world
        planned_obs)
      planned_obs (fake_run runner 1 (root ++ "obs-000001.ms" ∷ []) log_path 1 place_world)
      (λ exc. "error") place_world admitted_Steps refl refl
      (does_well 2 (omega arith) 1 config runner root "obs-000001.ms" log_path 1 place_world
        planned_obs admitted_Steps refl refl refl place-Free refl (omega arith))

abbrev queued_run : ProcessingRun
queued_run = record awaiting_run { state = queued }

abbrev queued_world : World
queued_world = record { db = queued_db; files = place; aux_cache = [] }

-- The processing leaves one image.
abbrev with_image : World → World
with_image w = record w {
  files = record place {
    entries = ("data" ∷ "products" ∷ "product-image.fits" ∷ [], file 16 0) ∷ [];
  };
}

abbrev job : ProcessRun
job = record { slot = λ w. w; ending = with_image; outcome = ok (pos 0) }

job-EndsWell :
    EndsWell 2 (omega arith) 1 queued_run (with_image (claimed 2 (omega arith) 1 queued_world))
unfolding create_observation_auto transition_observation move_observation change_observation
    obs_transitions create_run next_attempt tx ◌>>=◌ ◌>>◌ count update any max_where find add_event
    change_run image_of path_eq exists concat
job-EndsWell = record {
  reached = claimed-Reached 2 (omega arith) 1 queued_world queued_run queued_Steps refl refl;
  row = refl;
  image = refl;
}

process_delivers_example :
    Ensures
      (λ _ t. run_row 1 t.db ≡ some (record awaiting_run { exit_code = some (pos 0) }))
      (λ _. ⊥)
      (Process.process (λ image png w. (ok tt, w)) (λ exc. "error") job 1 queued_world)
unfolding create_observation_auto transition_observation move_observation change_observation
    obs_transitions create_run next_attempt tx ◌>>=◌ ◌>>◌ count update any max_where find ms_name
    concat zero_pad
process_delivers_example =
    process_delivers 2 (omega arith) 1 (λ image png w. (ok tt, w)) (λ exc. "error")
      (λ image png w. returned refl) job queued_world queued_run stored_obs queued_Steps refl refl
      refl refl job-EndsWell
