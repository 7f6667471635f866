-- ===== src/Runners/Fake/Measured.antt =====
-- The fake observation: what it leaves, and that it ends.
use Prim.Native.Nat.{max}
use Prim.Native.String.{len}
use ska_sdp_mini_control.Prelude.{
  ℕ, ◌≡◌, refl, true, false, String, [], ◌∷◌, ◌++◌, Bool-cases, inl, inr, ◌⊎◌, ◌>>=◌, ◌>>◌,
}
use ska_sdp_mini_control.Prelude.Int.{ℤ, pos}
use ska_sdp_mini_control.Prelude.Ensures.{Ensures, returned}
use ska_sdp_mini_control.Models.{FilePath}
use ska_sdp_mini_control.Files.{Files, exists, parent}
use ska_sdp_mini_control.Files.Allowed.{Never, mkdir_parents_lem}
use ska_sdp_mini_control.Files.Written
use ska_sdp_mini_control.Storage.{apparent_size}
use ska_sdp_mini_control.Runners.Fake.{FakeRunner, is_member, marker, observe}
use ska_sdp_mini_control.Runners.Fake.Place.{
  Free, nothing_made, data_there, data_size, data_runs, log_runs, log_room,
}

-- What a fake observation leaves of the data: as an exit code says.
abbrev pub Observed : FakeRunner → ℕ → FilePath → ℤ → Files → Type 0
Observed r oid ms rc t =
    ((is_member oid r.fail_observations ≡ true) × (rc ≡ pos 2) × (exists ms t ≡ false))
    ⊎ ((is_member oid r.fail_observations ≡ false)
        × (rc ≡ pos 0)
        × (exists ms t ≡ true)
        × (apparent_size ms t ≡ max (len marker) r.observation_size))

-- Where the place of the data is free, the fake observation returns: with 2 and without any data
-- for an observation that is to fail, else with 0 and with data whose apparent size is the size
-- that was asked for, or that of the marker if this is more.
pub observe_lem :
    (r : FakeRunner) (oid : ℕ) (base : FilePath) (name : String) (log_path : FilePath) (fs : Files)
    → Free base name log_path fs
    → Ensures
        (Observed r oid (base ++ name ∷ []))
        Never
        (observe r oid (base ++ name ∷ []) log_path fs)
unfolding observe ◌>>=◌ ◌>>◌
observe_lem r oid base name log_path fs free =
    elim (Bool-cases (is_member oid r.fail_observations)) [
      | inl fails ↦
          rw
            (
              mkdir_parents_lem (parent log_path) fs free.log_above,
              fails,
              Written.write_file_lem log_path (len "fake observation failure\n") fs free.allowed
                  free.log_free (log_room r.observation_size base name log_path fs free),
            )
            (returned
              (inl (fails, refl, nothing_made r.observation_size base name log_path fs free 25)))
      | inr works ↦
          rw
            (
              mkdir_parents_lem (parent log_path) fs free.log_above,
              works,
              data_runs r.observation_size base name log_path fs free,
              log_runs r.observation_size base name log_path fs free "fake observation success\n",
            )
            (returned (
              inr (
                works,
                refl,
                data_there r.observation_size base name log_path fs free 25,
                data_size r.observation_size base name log_path fs free 25,
              )))
    ]
