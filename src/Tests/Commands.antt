-- ===== src/Tests/Commands.antt =====
-- The commands of the operator, and a configuration that loads.
use ska_sdp_mini_control.Prelude.{
  ◌*◌, some, none, ◌≡◌, refl, arith, ok, [], ◌∷◌, ◌>>=◌, ◌>>◌, find, List, skip, update, sum_where,
  select, any,
}
use ska_sdp_mini_control.Prelude.Int.{pos}
use ska_sdp_mini_control.Prelude.Ensures.{Ensures}
use ska_sdp_mini_control.Store.Tables.{empty_db}
use ska_sdp_mini_control.Storage.{
  World, in_own_process, on_files, apparent_size, ensure_layout, physical_snapshot,
  auxiliary_charged_storage, refresh,
}
use ska_sdp_mini_control.Models.{FilePath}
use ska_sdp_mini_control.Files.{
  exists, path_eq, strip, is_dir, parent, touch, mkdir_parents, mkdir_below, mkdir_one, is_blocked,
}
use ska_sdp_mini_control.Store.Observations.{logical_storage, list_observations}
use ska_sdp_mini_control.Store.Runs.{list_runs}
use ska_sdp_mini_control.Scheduler.{abort}
use ska_sdp_mini_control.Config.{
  Python, RawConfig, amount, unit_size, action_of, parse_bytes, required, check_config, load_config,
}
use ska_sdp_mini_control.Config.Checked.{CanRun, load_config_lem}
use ska_sdp_mini_control.Scheduler.Tick.{Pause}
use ska_sdp_mini_control.Cli.Controller.{main_run, main_run-Steps}
use ska_sdp_mini_control.Cli.{
  runner_kind, build, run_command, status, sorted_names, show_status, report, purge_quarantine,
  main,
}
use ska_sdp_mini_control.Cli.Commands.{main-Steps}
use ska_sdp_mini_control.Protocol.Steps.{Steps}
use ska_sdp_mini_control.Tests.History.{failed_db, failed_Steps}
use ska_sdp_mini_control.Tests.Directory.{raw_files}
use ska_sdp_mini_control.Tests.Admission.{config}

abbrev failed_world : World
failed_world = record { db = failed_db; files = raw_files; aux_cache = [] }

main-Steps_example :
    Steps 2 empty_db (main config "fake" (purge_quarantine "old.ms") failed_world).1.db
main-Steps_example =
    main-Steps 2 (omega arith) config "fake" (purge_quarantine "old.ms") failed_world failed_Steps

-- A controller whose cache is out of date.
abbrev stale_world : World
stale_world = record failed_world { aux_cache = (config.data_root, ((none, none), (70, 70))) ∷ [] }

abbrev raw_data : FilePath
raw_data = "data" ∷ "observations" ∷ "obs-000001.ms" ∷ "table.dat" ∷ []

-- In an empty store nothing is charged, whatever the controller's cache says.
reports :
    (main config "fake" show_status (record stale_world { db = empty_db })).0
    ≡ ok (
        report (record {
          used = 0;
          reserved = 0;
          threshold = 70;
          quarantine = 0;
          trash = 0;
          charged = 0;
          products = 0;
          observations = [];
          runs = [];
        }))
unfolding main run_command build runner_kind status physical_snapshot auxiliary_charged_storage
    refresh apparent_size ensure_layout mkdir_parents mkdir_below mkdir_one is_blocked parent touch
    on_files is_dir exists any strip path_eq update in_own_process ◌>>=◌ ◌>>◌ find logical_storage
    sum_where list_observations list_runs select
reports = refl

-- Numbers are all that this configuration has.
abbrev plain_python : Python
plain_python = record {
  groups = λ s. some ("20", "MiB");
  upper = λ s. "MIB";
  scaled = λ n unit. 20 * unit;
  quoted = λ s. s;
}

abbrev raw_config : RawConfig
raw_config = record {
  storage_threshold = some (amount (pos 70));
  observation_reservation = some (amount (pos 50));
  max_parallel_processing = none;
  max_processing_attempts = some (pos 2);
  max_observations = none;
  reservation_overrun_action = some "abort";
  fake_observation_size = none;
}

loads : load_config plain_python ("data" ∷ []) raw_config failed_world ≡ (
  ok (record {
    data_root = "data" ∷ [];
    storage_threshold = 70;
    observation_reservation = 50;
    max_parallel_processing = pos 3;
    max_processing_attempts = pos 2;
    max_observations = none;
    reservation_overrun_action = abort;
    fake_observation_size = 20971520;
  }),
  failed_world,
)
unfolding load_config required parse_bytes unit_size action_of check_config find ◌>>=◌ ◌>>◌
loads = refl

load_config_lem_example :
    Ensures
      (λ cfg _. CanRun cfg)
      (λ _. Unit)
      (load_config plain_python ("data" ∷ []) raw_config failed_world)
load_config_lem_example = load_config_lem plain_python ("data" ∷ []) raw_config failed_world

-- One round of the loop, in whose sleep nothing happens.
abbrev one_round : List Pause
one_round = record { meanwhile = λ w. w; left = λ alive. alive } ∷ []

main_run-Steps_example :
    Steps 2 empty_db (main_run (λ exc. "error") skip config "podman" one_round failed_world).1.db
main_run-Steps_example =
    main_run-Steps 2 (omega arith) (λ exc. "error") skip (λ w h. h) config refl "podman" one_round
      failed_world ((λ w h. h), tt) failed_Steps

-- A runner that is not known.
unknown_runner : runner_kind "slurm" ≡ none
unfolding runner_kind
unknown_runner = refl

sorted : sorted_names ("b" ∷ "c" ∷ "a" ∷ []) ≡ "a" ∷ "b" ∷ "c" ∷ []
unfolding sorted_names
sorted = refl
