-- ===== src/Storage/Quarantine.antt =====
-- storage.py: data is moved into quarantine under a name that is free.
pub mod Names
pub mod Outcomes
use ska_sdp_mini_control.Prelude.{
  ℕ, zero, suc, ◌+◌, String, Bool, not, Option, none, some, List, [], ◌∷◌, ◌++◌, Action, pure, gets,
  raise_if, or_raise, ◌>>=◌, ◌>>◌, runtime_error, file_not_found, if◌then◌else◌, length,
}
use ska_sdp_mini_control.Prelude.Format.{concat, zero_pad}
use ska_sdp_mini_control.Models.{FilePath}
use ska_sdp_mini_control.Files.{Files, exists, path_text, parent, rename, mkdir_parents}
use ska_sdp_mini_control.Storage.{World, on_files, invalidate_auxiliary_cache}

-- root / "quarantine" / label
unfoldable pub quarantined : FilePath → String → FilePath
quarantined root label = root ++ "quarantine" ∷ label ∷ []

-- base.with_name(f"{base.name}.{n:03d}")
unfoldable pub candidate : FilePath → String → ℕ → FilePath
unfolding quarantined
candidate root label n = quarantined root (concat (label ∷ "." ∷ zero_pad 3 n ∷ []))

-- The loop `while True`, from `n`, for as many rounds as the fuel allows.
unfoldable pub first_free : ℕ → ℕ → FilePath → String → Files → Option FilePath
first_free zero n root label fs = none
first_free (suc fuel) n root label fs =
    let rest = first_free fuel (n + 1) root label fs in
    if exists (candidate root label n) fs then rest else some (candidate root label n)

-- _unique_quarantine_target, with one round more than there are files.
unfoldable pub unique_quarantine_target : FilePath → String → Files → Option FilePath
unfolding first_free
unique_quarantine_target root label fs =
    let searched = first_free (suc (length fs.entries)) 1 root label fs in
    if exists (quarantined root label) fs then searched else some (quarantined root label)

-- quarantine_path
unfoldable pub quarantine_path : FilePath → FilePath → String → Action World FilePath
quarantine_path root source label = do
  there ← gets (λ w. exists source w.files)
  raise_if (not there) (file_not_found (path_text source))
  target ← gets (λ w. unique_quarantine_target root label w.files)
  q ← or_raise target (runtime_error "no name is left")
  on_files (mkdir_parents (parent q))
  on_files (rename source q)
  invalidate_auxiliary_cache root
  pure q
