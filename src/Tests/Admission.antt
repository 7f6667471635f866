-- ===== src/Tests/Admission.antt =====
-- The admission of a first observation.
use ska_sdp_mini_control.Prelude.{
  ◌+◌, ◌≤◌, refl, arith, none, false, [], ◌∷◌, ◌>>=◌, ◌>>◌, any, find, select, sum_where,
}
use ska_sdp_mini_control.Files.{file, dir, exists, path_eq, mtime, strip}
use ska_sdp_mini_control.Store.Tables.{empty_db}
use ska_sdp_mini_control.Store.Observations.{logical_storage}
use ska_sdp_mini_control.Storage.{
  World, auxiliary_charged_storage, refresh, cached_sizes, mtime_signature, apparent_size,
}
use ska_sdp_mini_control.Scheduler.{Config, abort, can_admit, new_observation}
use ska_sdp_mini_control.Scheduler.Admission.{can_admit-new_observation}

abbrev pub config : Config
config = record {
  data_root = "data" ∷ [];
  observation_reservation = 50;
  storage_threshold = 70;
  max_observations = none;
  max_processing_attempts = 2;
  reservation_overrun_action = abort;
}

abbrev first_world : World
first_world = record {
  db = empty_db;
  files = record {
    entries =
        ("data" ∷ "quarantine" ∷ [], dir 0)
        ∷ ("data" ∷ "quarantine" ∷ "old.ms" ∷ [], file 20 0)
        ∷ [];
    clock = 1;
    refuses = λ p. false;
  };
  aux_cache = [];
}

can_admit-new_observation_example :
    (logical_storage (new_observation config (can_admit config first_world).1).1.db).0
      + (logical_storage (new_observation config (can_admit config first_world).1).1.db).1
      + 20
      + 0
    ≤ 70
unfolding can_admit logical_storage auxiliary_charged_storage refresh cached_sizes mtime_signature
    apparent_size exists path_eq mtime strip any find select sum_where ◌>>=◌ ◌>>◌
can_admit-new_observation_example =
    can_admit-new_observation config first_world 20 0 (omega arith) refl refl
