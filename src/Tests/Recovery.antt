-- ===== src/Tests/Recovery.antt =====
-- Quarantine and the recovery at the start, on a concrete data directory.
use ska_sdp_mini_control.Prelude.{◌≡◌, refl, some, arith, true, false, skip, [], ◌∷◌, any}
use ska_sdp_mini_control.Prelude.Format.{concat, zero_pad}
use ska_sdp_mini_control.Prelude.Ensures.{Ensures}
use ska_sdp_mini_control.Models.{FilePath}
use ska_sdp_mini_control.Files.{Files, file, dir, exists, path_eq, strip}
use ska_sdp_mini_control.Store.Tables.{empty_db}
use ska_sdp_mini_control.Storage.{World}
use ska_sdp_mini_control.Storage.Quarantine.{
  quarantined, candidate, first_free, unique_quarantine_target, quarantine_path,
}
use ska_sdp_mini_control.Storage.Quarantine.Names.{unique_quarantine_target-is_free}
use ska_sdp_mini_control.Storage.Quarantine.Outcomes.{KeepsWith, quarantine_path_lem}
use ska_sdp_mini_control.Reconcile.{startup_reconcile}
use ska_sdp_mini_control.Protocol.Steps.{Steps}
use ska_sdp_mini_control.Protocol.Recovery.{NotListable, startup_reconcile_lem}
use ska_sdp_mini_control.Tests.History.{accepted_db, accepted_Steps}
use ska_sdp_mini_control.Tests.Directory.{data_root, raw_files}

abbrev pub half_ms : FilePath
half_ms = "data" ∷ "observations" ∷ "half.ms" ∷ []

abbrev pub old_ms : FilePath
old_ms = "data" ∷ "quarantine" ∷ "half.ms" ∷ []

-- A label of quarantine that is taken.
abbrev pub taken_files : Files
taken_files = record {
  entries =
      ("data" ∷ [], dir 0)
      ∷ (half_ms, file 9 1)
      ∷ ("data" ∷ "quarantine" ∷ [], dir 2)
      ∷ (old_ms, file 5 2)
      ∷ [];
  clock = 3;
  refuses = λ p. false;
}

abbrev pub taken_world : World
taken_world = record { db = empty_db; files = taken_files; aux_cache = [] }

abbrev second_name : FilePath
second_name = "data" ∷ "quarantine" ∷ "half.ms.001" ∷ []

takes_second_name : unique_quarantine_target data_root "half.ms" taken_files ≡ some second_name
unfolding unique_quarantine_target quarantined candidate first_free exists path_eq any concat
    zero_pad
takes_second_name = refl

unique_quarantine_target-is_free_example :
    (q : FilePath) × (unique_quarantine_target data_root "half.ms" taken_files ≡ some q)
    × (exists q taken_files ≡ false)
unique_quarantine_target-is_free_example =
    unique_quarantine_target-is_free data_root "half.ms" taken_files

quarantine_path_lem_example :
    Ensures
      (λ r t.
        (r ≡ second_name)
        × KeepsWith empty_db old_ms t
        × (exists half_ms t.files ≡ false)
        × (exists second_name t.files ≡ true))
      (KeepsWith empty_db old_ms)
      (quarantine_path data_root half_ms "half.ms" taken_world)
unfolding strip exists path_eq any
quarantine_path_lem_example =
    quarantine_path_lem data_root half_ms "half.ms" taken_world old_ms second_name takes_second_name
      refl refl refl refl

startup_reconcile_lem_example :
    Ensures
      (λ _ t. Steps 2 empty_db t.db)
      (λ t. Steps 2 empty_db t.db × NotListable data_root t)
      (startup_reconcile
        (λ exc. "error")
        skip
        data_root
        (record { db = accepted_db; files = raw_files; aux_cache = [] }))
startup_reconcile_lem_example =
    startup_reconcile_lem 2 (omega arith) (λ exc. "error") skip data_root
      (record { db = accepted_db; files = raw_files; aux_cache = [] })
      (record { db = accepted_db; files = raw_files; aux_cache = [] }) refl accepted_Steps
