-- ===== src/Scheduler.antt =====
-- scheduler.py: the admission of observations; the workers and the tick are in the children.
pub mod Admission
pub mod Observe
pub mod Process
pub mod Tick
pub mod Idle
use ska_sdp_mini_control.Prelude.{
  ℕ, ◌+◌, Bool, false, true, leb, ltb, Option, none, some, [], ◌∷◌, ◌++◌, Action, pure, gets, ◌>>=◌,
  ◌>>◌,
}
use ska_sdp_mini_control.Models.{FilePath}
use ska_sdp_mini_control.Store.Tables.{Db}
use ska_sdp_mini_control.Store.Observations.{
  logical_storage, count_observations, create_observation_auto,
}
use ska_sdp_mini_control.Storage.{World, on_db, auxiliary_charged_storage}

-- Config.reservation_overrun_action
pub data OverrunAction : Type 0 where
  abort warn : OverrunAction

-- The fields of Config that the scheduler reads, but for the time intervals.
pub record Config : Type 0 where
  pub data_root : FilePath
  pub observation_reservation : ℕ
  pub storage_threshold : ℕ
  pub max_observations : Option ℕ
  pub max_processing_attempts : ℕ
  pub reservation_overrun_action : OverrunAction

-- Scheduler.can_admit
unfoldable pub can_admit : Config → Action World Bool
can_admit cfg = do
  (used, reserved) ← gets (λ w. logical_storage w.db)
  (quarantine, trash) ← auxiliary_charged_storage cfg.data_root false
  pure (
      leb (used + reserved + quarantine + trash + cfg.observation_reservation)
        cfg.storage_threshold)

abbrev below : Option ℕ → ℕ → Bool
below none n = true
below (some limit) n = ltb n limit

-- Scheduler._campaign_has_capacity
unfoldable pub campaign_has_capacity : Config → Db → Bool
campaign_has_capacity cfg db = below cfg.max_observations (count_observations db)

-- Scheduler._new_observation
unfoldable pub new_observation : Config → Action World ℕ
new_observation cfg =
    on_db
      (create_observation_auto (cfg.data_root ++ "observations" ∷ []) cfg.observation_reservation)
