-- ===== src/Cli/Reporting.antt =====
-- What the command `status` tells.
use ska_sdp_mini_control.Prelude.{◌+◌, ◌≡◌, true, [], ◌∷◌, ◌++◌, ◌>>◌}
use ska_sdp_mini_control.Prelude.Ensures.{Ensures}
use ska_sdp_mini_control.Models.{FilePath}
use ska_sdp_mini_control.Files.{exists}
use ska_sdp_mini_control.Store.Tables.{Db}
use ska_sdp_mini_control.Store.Observations.{logical_storage}
use ska_sdp_mini_control.Storage.{World, apparent_size}
use ska_sdp_mini_control.Scheduler.{Config}
use ska_sdp_mini_control.Cli.{Status}

module _ (db : Db) (p : FilePath) where
  -- The tables are as they were, and what stands at `p` is still there.
  abbrev Kept : World → Type 0
  Kept t = (t.db ≡ db) × (exists p t.files ≡ true)

-- The charge that is printed, from the tables and the walk over the two trees.
abbrev ChargedIn : Config → Status → World → Type 0
ChargedIn cfg s t =
    s.charged
    ≡ (logical_storage t.db).0
      + (logical_storage t.db).1
      + apparent_size (cfg.data_root ++ "quarantine" ∷ []) t.files
      + apparent_size (cfg.data_root ++ "trash" ∷ []) t.files
