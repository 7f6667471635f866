-- ===== src/Tests/Directory.antt =====
-- The commands on a data directory with one observation.
use text.Mathlib.TextEquality.{eq_iff}
use ska_sdp_mini_control.Files.Allowed.{Reachable}
use ska_sdp_mini_control.Storage.Deletion.Returns.{finish_observation_deletion_returns}
use ska_sdp_mini_control.Prelude.{
  ◌+◌, ◌≡◌, refl, some, arith, false, ok, [], ◌∷◌, tx, ◌>>=◌, ◌>>◌, count, update, any, max_where,
  find, select,
}
use ska_sdp_mini_control.Prelude.Format.{concat, zero_pad}
use ska_sdp_mini_control.Prelude.Ensures.{Ensures}
use ska_sdp_mini_control.Models.{FilePath, ProcessingRun, obs_transitions, run_transitions}
use ska_sdp_mini_control.Files.{
  Files, file, dir, strip, exists, is_dir, rename, rmtree, left_over, parent, path_eq, touch, prune,
  is_blocked, mkdir_parents, mkdir_one,
}
use ska_sdp_mini_control.Store.Tables.{run_row}
use ska_sdp_mini_control.Store.Observations.{
  create_observation_auto, transition_observation, ms_name, move_observation, change_observation,
  get_observation,
}
use ska_sdp_mini_control.Store.Runs.{
  create_run, transition_run, next_attempt, move_run, change_run, get_run,
}
use ska_sdp_mini_control.Store.Verdicts.{
  accept_run_and_begin_deletion, judge_run, begin_deletion, require_verdict_on,
}
use ska_sdp_mini_control.Store.Verdicts.Outcomes.{Accepted, Reprocessed}
use ska_sdp_mini_control.Storage.{World, on_db, on_files, invalidate_auxiliary_cache}
use ska_sdp_mini_control.Storage.Deletion.{
  trash_of, finish_observation_deletion, force_drop_observation_data, move_to_trash, stash,
  empty_trash, remove,
}
use ska_sdp_mini_control.Storage.Deletion.Outcomes.{Keeps}
use ska_sdp_mini_control.Storage.Deletion.Finish.{
  Finished, Dropped, finish_observation_deletion_lem, force_drop_observation_data_lem,
}
use ska_sdp_mini_control.Qa.{accept_run, reprocess_run, product_prefix, process_log}
use ska_sdp_mini_control.Qa.Outcomes.{Through, Halted, accept_run_lem, reprocess_run_lem}
use ska_sdp_mini_control.Tests.History.{
  awaiting_db, failed_db, accepted_db, stored_obs, awaiting_run, deleting_obs,
}

abbrev pub data_root : FilePath
data_root = "data" ∷ []

abbrev pub raw_files : Files
raw_files = record {
  entries =
      (data_root, dir 0)
      ∷ ("data" ∷ "observations" ∷ [], dir 1)
      ∷ ("data" ∷ "observations" ∷ "obs-000001.ms" ∷ [], dir 2)
      ∷ ("data" ∷ "observations" ∷ "obs-000001.ms" ∷ "table.dat" ∷ [], file 40 3)
      ∷ [];
  clock = 4;
  refuses = λ p. false;
}

abbrev awaiting_world : World
awaiting_world = record { db = awaiting_db; files = raw_files; aux_cache = [] }

abbrev failed_world : World
failed_world = record { db = failed_db; files = raw_files; aux_cache = [] }

abbrev deleting_world : World
deleting_world = record { db = accepted_db; files = raw_files; aux_cache = [] }

abbrev pub small_world : World
small_world = record {
  db = record {
    observations = stored_obs ∷ [];
    runs = awaiting_run ∷ [];
    events = [];
    obs_seq = 1;
    run_seq = 1;
    event_seq = 0;
  };
  files = raw_files;
  aux_cache = [];
}

accepts : (accept_run data_root 1 "good" small_world).0 ≡ ok tt
unfolding transition_observation move_observation change_observation obs_transitions tx ◌>>=◌ ◌>>◌
    count update any find select ms_name concat zero_pad accept_run_and_begin_deletion judge_run
    begin_deletion require_verdict_on accept_run get_run get_observation on_db on_files exists
    path_eq finish_observation_deletion mkdir_parents mkdir_one parent trash_of is_dir move_to_trash
    touch stash rename strip is_blocked invalidate_auxiliary_cache empty_trash prune rmtree remove
accepts = refl

finish_observation_deletion_lem_example :
    Ensures
      (λ _ t. Finished data_root 1 accepted_db t)
      (Keeps accepted_db)
      (finish_observation_deletion data_root 1 deleting_world)
unfolding create_observation_auto transition_observation move_observation change_observation
    obs_transitions create_run transition_run run_transitions next_attempt move_run change_run tx
    ◌>>=◌ ◌>>◌ count update any max_where find ms_name concat zero_pad accept_run_and_begin_deletion
    judge_run begin_deletion require_verdict_on trash_of strip
finish_observation_deletion_lem_example =
    finish_observation_deletion_lem data_root 1 deleting_world (λ o found. ground arith)

force_drop_observation_data_lem_example :
    Ensures
      (λ _ t. Dropped data_root 1 "lost" accepted_db t)
      (Keeps accepted_db)
      (force_drop_observation_data data_root 1 "lost" deleting_world)
force_drop_observation_data_lem_example =
    force_drop_observation_data_lem data_root 1 "lost" deleting_world

accept_run_lem_example :
    Ensures
      (λ _ t. Through data_root (Accepted 1 "good" awaiting_db) t)
      (Halted awaiting_world (Accepted 1 "good" awaiting_db))
      (accept_run data_root 1 "good" awaiting_world)
accept_run_lem_example = accept_run_lem data_root 1 "good" awaiting_world

reprocess_run_lem_example :
    Ensures
      (λ new_rid t.
        (r : ProcessingRun) × (run_row 1 failed_db ≡ some r)
        × Reprocessed 1
            (product_prefix data_root r.observation_id (r.attempt + 1))
            (process_log data_root r.observation_id (r.attempt + 1))
            "again"
            failed_db
            new_rid
            t.db
        × (t.files ≡ raw_files))
      (λ t. t ≡ failed_world)
      (reprocess_run data_root 1 "again" failed_world)
reprocess_run_lem_example = reprocess_run_lem data_root 1 "again" failed_world

abbrev full_files : Files
full_files = record raw_files {
  entries = ([], dir 0) ∷ ("data" ∷ "trash" ∷ [], dir 0) ∷ raw_files.entries;
}

abbrev full_world : World
full_world = record { db = accepted_db; files = full_files; aux_cache = [] }

trash_is_there : Reachable ("data" ∷ "trash" ∷ []) full_files
unfolding strip is_dir any path_eq
trash_is_there [] under = refl
trash_is_there (a ∷ []) under = ground (arith, eq_iff a "data")
trash_is_there (a ∷ b ∷ []) under = ground (arith, eq_iff a "data", eq_iff b "trash")
trash_is_there (a ∷ b ∷ c ∷ q) under = absurd (ground (arith, eq_iff a "data", eq_iff b "trash"))

finish_observation_deletion_returns_example :
    (finish_observation_deletion data_root 1 full_world).0 ≡ ok tt
unfolding create_observation_auto transition_observation move_observation change_observation
    obs_transitions create_run transition_run run_transitions next_attempt move_run change_run tx
    ◌>>=◌ ◌>>◌ count update any max_where find ms_name concat zero_pad accept_run_and_begin_deletion
    judge_run begin_deletion require_verdict_on exists path_eq strip trash_of
finish_observation_deletion_returns_example =
    finish_observation_deletion_returns data_root 1 full_world deleting_obs (omega arith) refl refl
      (λ p. refl) trash_is_there refl refl

-- A tree whose second file the operating system does not let go: the first one is gone.
stops_midway :
    (rmtree ("t" ∷ []) (record {
      entries =
          ("t" ∷ [], dir 0)
          ∷ ("t" ∷ "a" ∷ [], file 1 0)
          ∷ ("t" ∷ "b" ∷ [], file 1 0)
          ∷ ("t" ∷ "c" ∷ [], file 1 0)
          ∷ [];
      clock = 1;
      refuses = path_eq ("t" ∷ "b" ∷ []);
    })).1.entries
    ≡ ("t" ∷ [], dir 0) ∷ ("t" ∷ "b" ∷ [], file 1 0) ∷ ("t" ∷ "c" ∷ [], file 1 0) ∷ []
unfolding rmtree left_over is_dir any path_eq strip ◌>>=◌ ◌>>◌
stops_midway = refl
