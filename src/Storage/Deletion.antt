-- ===== src/Storage/Deletion.antt =====
-- storage.py: the removal of an observation's raw data.
pub mod Outcomes
pub mod Finish
pub mod Returns
use ska_sdp_mini_control.Prelude.{
  ℕ, String, Bool, not, Option, none, some, List, [], ◌∷◌, ◌++◌, Action, raise_if, gets, skip,
  ◌>>=◌, ◌>>◌, value_error, runtime_error, if◌then◌else◌,
}
use ska_sdp_mini_control.Prelude.Format.{concat, decimal}
use ska_sdp_mini_control.Models.{
  FilePath, Observation, ObservationState, obs_state_eq, obs_state_in, deleting, deleted,
  inconsistent,
}
use ska_sdp_mini_control.Files.{
  Files, exists, is_dir, parent, rmtree, unlink, rename, mkdir_parents,
}
use ska_sdp_mini_control.Store.Observations.{
  ObservationChange, ms_name, get_observation, transition_observation,
}
use ska_sdp_mini_control.Storage.{World, on_db, on_files, invalidate_auxiliary_cache}

-- root / "trash" / f"obs-{obs.id:06d}.ms"
unfoldable pub trash_of : FilePath → ℕ → FilePath
unfolding ms_name
trash_of root oid = root ++ "trash" ∷ ms_name oid ∷ []

-- `if path.is_dir(): shutil.rmtree(path) else: path.unlink()`
unfoldable pub remove : FilePath → Action Files Unit
remove p = do is_tree ← gets (is_dir p); if is_tree then rmtree p else unlink p

unfoldable pub both_exist : ℕ → String
both_exist oid = concat ("both live and trash copies exist for observation " ∷ decimal oid ∷ [])

-- The body of `if src.exists(): …`.
unfoldable pub stash : FilePath → FilePath → ℕ → FilePath → Action World Unit
stash root src oid trash = do
  there ← gets (λ w. exists trash w.files)
  raise_if there (runtime_error (both_exist oid))
  on_files (rename src trash)
  invalidate_auxiliary_cache root

-- `if src.exists(): …`
unfoldable pub move_to_trash : FilePath → FilePath → ℕ → FilePath → Action World Unit
move_to_trash root src oid trash = do
  live ← gets (λ w. exists src w.files)
  if live then stash root src oid trash else skip

-- `if trash.exists(): …`
unfoldable pub empty_trash : FilePath → FilePath → Action World Unit
empty_trash root trash = do
  there ← gets (λ w. exists trash w.files)
  if there then on_files (remove trash) >> invalidate_auxiliary_cache root else skip

abbrev pub raw_removed : ObservationChange
raw_removed = record {
  reason = "raw visibility removed";
  size_bytes = some 0;
  reserved_bytes = some 0;
  error = none;
}

-- finish_observation_deletion
unfoldable pub finish_observation_deletion : FilePath → ℕ → Action World Unit
finish_observation_deletion root oid = do
  obs ← on_db (get_observation oid)
  raise_if (not (obs_state_eq obs.state deleting)) (value_error "observation is not DELETING")
  on_files (mkdir_parents (parent (trash_of root obs.id)))
  move_to_trash root obs.ms_path obs.id (trash_of root obs.id)
  empty_trash root (trash_of root obs.id)
  on_db (transition_observation obs.id deleting deleted raw_removed)

-- One turn of the loop of force_drop_observation_data.
unfoldable pub remove_if_there : FilePath → Action Files Unit
unfolding remove
remove_if_there p = do there ← gets (exists p); if there then remove p else skip

abbrev pub dropped_by_operator : String → ObservationChange
dropped_by_operator reason = record {
  reason = reason;
  size_bytes = some 0;
  reserved_bytes = some 0;
  error = some "operator resolved recovery inconsistency by dropping raw data";
}

-- force_drop_observation_data
unfoldable pub force_drop_observation_data : FilePath → ℕ → String → Action World Unit
force_drop_observation_data root oid reason = do
  obs ← on_db (get_observation oid)
  raise_if (not (obs_state_in obs.state (deleting ∷ inconsistent ∷ [])))
      (value_error "observation is neither DELETING nor INCONSISTENT")
  on_files (remove_if_there obs.ms_path)
  on_files (remove_if_there (trash_of root obs.id))
  invalidate_auxiliary_cache root
  on_db (transition_observation obs.id obs.state deleted (dropped_by_operator reason))
