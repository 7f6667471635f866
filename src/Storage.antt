-- ===== src/Storage.antt =====
-- storage.py and sizing.py: the data directory beside the store.
pub mod Rules
pub mod Deletion
pub mod Quarantine
use mathlib.Core.Option
use ska_sdp_mini_control.Prelude.{
  ℕ, ◌+◌, ◌==◌, String, Bool, true, false, not, ◌&&◌, ◌||◌, Option, none, some, List, [], ◌∷◌, ◌++◌,
  Action, ok, pure, raise_if, gets, modify, skip, ◌>>=◌, ◌>>◌, value_error, runtime_error, find,
  select, sum_where, if◌then◌else◌,
}
use ska_sdp_mini_control.Models.{
  FilePath, Observation, ObservationState, obs_state_eq, obs_state_in, deleting, deleted,
  inconsistent,
}
use ska_sdp_mini_control.Files.{
  Files, Entry, Node, file, dir, path_eq, is_under, exists, is_dir, mtime, parent, rmtree, unlink,
  rename, mkdir_parents,
}
use ska_sdp_mini_control.Store.Tables.{Db}
use ska_sdp_mini_control.Store.Observations.{
  ObservationChange, ms_name, get_observation, transition_observation,
}

-- _mtime_signature's answer, and the sizes of quarantine and trash.
abbrev pub Signature : Type 0
Signature = Option ℕ × Option ℕ

abbrev pub Sizes : Type 0
Sizes = ℕ × ℕ

-- The database, the data directory, and _AUX_CACHE of the process that is looked at. The database
-- and the directory are shared with other processes, the cache is not.
pub record World : Type 0 where
  pub db : Db
  pub files : Files
  pub aux_cache : List (FilePath × (Signature × Sizes))

module _ {A : Type 0} where
  -- A process of its own: its cache is empty when it starts and goes with it, while the cache of the
  -- process that is looked at stays as it is.
  unfoldable pub in_own_process : Action World A → Action World A
  in_own_process m w =
      let (r, t) = m (record w { aux_cache = [] }) in (r, record t { aux_cache = w.aux_cache })

  -- A method of the store.
  unfoldable pub on_db : Action Db A → Action World A
  on_db m w = let (r, db) = m w.db in (r, record w { db = db })

  -- A call of the operating system.
  unfoldable pub on_files : Action Files A → Action World A
  on_files m w = let (r, fs) = m w.files in (r, record w { files = fs })

abbrev pub is_file_at : FilePath → Entry → Bool
is_file_at p (q, file _ _) = path_eq q p
is_file_at p (q, dir _) = false

abbrev pub is_file_below : FilePath → Entry → Bool
is_file_below p (q, file _ _) = is_under p q
is_file_below p (q, dir _) = false

abbrev pub st_size : Entry → ℕ
st_size (_, file size _) = size
st_size (_, dir _) = 0

-- apparent_size
unfoldable pub apparent_size : FilePath → Files → ℕ
apparent_size p fs = if not (exists p fs) then 0 else size_at (find (is_file_at p) fs.entries)
  where
    size_at : Option Entry → ℕ
    size_at (some e) = st_size e
    size_at none = sum_where (is_file_below p) st_size fs.entries

-- ensure_layout
unfoldable pub ensure_layout : FilePath → Action World Unit
ensure_layout root = do
  on_files (mkdir_parents (root ++ "observations" ∷ []))
  on_files (mkdir_parents (root ++ "products" ∷ []))
  on_files (mkdir_parents (root ++ "logs" ∷ []))
  on_files (mkdir_parents (root ++ "trash" ∷ []))
  on_files (mkdir_parents (root ++ "quarantine" ∷ []))

-- _mtime_signature
unfoldable pub mtime_signature : FilePath → Files → Signature
mtime_signature root fs = (mtime (root ++ "quarantine" ∷ []) fs, mtime (root ++ "trash" ∷ []) fs)

-- invalidate_auxiliary_cache
unfoldable pub invalidate_auxiliary_cache : FilePath → Action World Unit
invalidate_auxiliary_cache root =
    modify (λ w. record w { aux_cache = select (λ c. not (path_eq c.0 root)) w.aux_cache })

abbrev option_ℕ_eq : Option ℕ → Option ℕ → Bool
option_ℕ_eq none none = true
option_ℕ_eq (some a) (some b) = a == b
option_ℕ_eq _ _ = false

abbrev pub signature_eq : Signature → Signature → Bool
signature_eq (a, b) (c, d) = option_ℕ_eq a c && option_ℕ_eq b d

unfoldable pub cached_sizes : FilePath → World → Option (Signature × Sizes)
cached_sizes root w =
    Option.map (λ (c : FilePath × (Signature × Sizes)). c.1)
      (find (λ c. path_eq c.0 root) w.aux_cache)

-- Walks the two trees and stores what it has found.
unfoldable pub refresh : FilePath → Action World Sizes
refresh root w =
    let sizes : Sizes = (
      apparent_size (root ++ "quarantine" ∷ []) w.files,
      apparent_size (root ++ "trash" ∷ []) w.files,
    ) in
    (
      ok sizes,
      record w {
        aux_cache =
            (root, (mtime_signature root w.files, sizes))
            ∷ select (λ c. not (path_eq c.0 root)) w.aux_cache;
      },
    )

abbrev pub reuse : FilePath → Signature → Option (Signature × Sizes) → Action World Sizes
reuse root sig none = refresh root
reuse root sig (some (seen, sizes)) = if signature_eq seen sig then pure sizes else refresh root

-- auxiliary_charged_storage
unfoldable pub auxiliary_charged_storage : FilePath → Bool → Action World Sizes
auxiliary_charged_storage root true w = refresh root w
auxiliary_charged_storage root false w =
    reuse root (mtime_signature root w.files) (cached_sizes root w) w

-- PhysicalStorage
pub record PhysicalStorage : Type 0 where
  pub managed_raw : ℕ
  pub quarantine : ℕ
  pub trash : ℕ
  pub products : ℕ

-- PhysicalStorage.total_tracked
unfoldable pub total_tracked : PhysicalStorage → ℕ
total_tracked s = s.managed_raw + s.quarantine + s.trash + s.products

-- physical_snapshot
unfoldable pub physical_snapshot : FilePath → Action World PhysicalStorage
physical_snapshot root = do
  (quarantine, trash) ← auxiliary_charged_storage root true
  gets (λ w. record {
    managed_raw = apparent_size (root ++ "observations" ∷ []) w.files;
    quarantine = quarantine;
    trash = trash;
    products = apparent_size (root ++ "products" ∷ []) w.files;
  })
