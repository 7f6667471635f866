-- ===== src/Reconcile.antt =====
-- reconcile.py: the recovery at the start of the controller, and the operator's way out of a
-- wedged observation.
use ska_sdp_mini_control.Prelude.{
  ℕ, String, not, ◌&&◌, Exc, Option, none, some, List, [], ◌∷◌, ◌++◌, Action, gets, raise_if, skip,
  ◌>>=◌, ◌>>◌, os_error, if◌then◌else◌, any, for_each, map, try_except, try_finally,
}
use ska_sdp_mini_control.Prelude.Int.{negsuc}
use ska_sdp_mini_control.Prelude.Format.{concat, zero_pad}
use ska_sdp_mini_control.Models.{
  FilePath, Observation, ProcessingRun, observing, observe_failed, stored, deleting, inconsistent,
  running, failed,
}
use ska_sdp_mini_control.Files.{
  Files, Entry, exists, is_dir, path_eq, path_text, parent, rmtree, strip,
}
use ska_sdp_mini_control.Store.Tables.{observation, run, reconcile}
use ska_sdp_mini_control.Store.Observations.{
  ObservationChange, list_observations, transition_observation, force_observation_fields,
  record_event,
}
use ska_sdp_mini_control.Store.Runs.{
  RunChange, list_runs, transition_run, has_accepted_run, has_active_runs,
}
use ska_sdp_mini_control.Storage.{World, on_db, on_files}
use ska_sdp_mini_control.Storage.Deletion.{finish_observation_deletion, force_drop_observation_data}
use ska_sdp_mini_control.Storage.Quarantine.{quarantine_path}

-- f"obs-{obs.id:06d}-{suffix}.ms"
unfoldable pub obs_label : ℕ → String → String
obs_label oid suffix = concat ("obs-" ∷ zero_pad 6 oid ∷ "-" ∷ suffix ∷ ".ms" ∷ [])

-- The names in a directory, Path.iterdir.
abbrev name_in : Option FilePath → List String
name_in (some (name ∷ [])) = name ∷ []
name_in _ = []

names_of : FilePath → List Entry → List String
names_of p [] = []
names_of p (e ∷ es) = name_in (strip p e.0) ++ names_of p es

unfoldable pub iterdir : FilePath → Files → List String
unfolding names_of
iterdir p fs = names_of p fs.entries

abbrev pub interrupted : ObservationChange
interrupted = record {
  reason = "restart found interrupted observation";
  size_bytes = none;
  reserved_bytes = some 0;
  error = some "interrupted by previous shutdown";
}

abbrev pub interrupted_run : RunChange
interrupted_run = record {
  reason = "restart found interrupted processing";
  exit_code = some (negsuc 0);
  qa_verdict = none;
  qa_note = none;
}

abbrev pub resumed : ObservationChange
resumed = record {
  reason = "reconcile resumed accepted QA deletion";
  size_bytes = none;
  reserved_bytes = none;
  error = none;
}

abbrev pub ms_missing : ObservationChange
ms_missing = record {
  reason = "database says STORED but MS is missing";
  size_bytes = some 0;
  reserved_bytes = some 0;
  error = some "stored MS missing on restart";
}

-- One turn of each loop of startup_reconcile, inside its `try`.
unfoldable pub quarantine_partial : FilePath → Observation → Action World Unit
quarantine_partial root obs = do
  there ← gets (λ w. exists obs.ms_path w.files)
  if there then (do quarantine_path root obs.ms_path (obs_label obs.id "partial"); skip) else skip
  on_db (transition_observation obs.id observing observe_failed interrupted)

unfoldable pub remove_partial_products : ProcessingRun → Action World Unit
remove_partial_products r = do
  there ← gets (λ w. exists (parent r.output_prefix) w.files)
  if there then on_files (rmtree (parent r.output_prefix)) else skip
  on_db (transition_run r.id running failed interrupted_run)

unfoldable pub resume_accepted : Observation → Action World Unit
resume_accepted obs = do
  due ← gets (λ w. has_accepted_run obs.id w.db && not (has_active_runs obs.id w.db))
  if due then on_db (transition_observation obs.id stored deleting resumed) else skip

unfoldable pub verify_stored : Observation → Action World Unit
verify_stored obs = do
  there ← gets (λ w. exists obs.ms_path w.files)
  if there then skip else on_db (transition_observation obs.id stored inconsistent ms_missing)

unfoldable pub quarantine_orphan : FilePath → String → Action World Unit
quarantine_orphan root name = do
  quarantine_path root (root ++ "observations" ∷ name ∷ []) (concat ("orphan-" ∷ name ∷ []))
  skip

-- `repr` is the text of an exception, as {exc!r} shows it.
module _ (repr : Exc → String) where
  abbrev pub failure_message : String → Exc → String
  failure_message context exc =
      concat ("reconcile failure during " ∷ context ∷ ": " ∷ repr exc ∷ [])

  -- _record_observation_recovery_failure
  unfoldable pub record_observation_recovery_failure : ℕ → String → Exc → Action World Unit
  record_observation_recovery_failure oid context exc =
      try_finally (on_db (force_observation_fields oid none (some (failure_message context exc))))
        (on_db (record_event observation oid (failure_message context exc)))

  -- _record_run_recovery_failure
  unfoldable pub record_run_recovery_failure : ℕ → String → Exc → Action World Unit
  record_run_recovery_failure rid context exc =
      on_db (record_event run rid (failure_message context exc))

  -- `for obs in …: try: … except Exception as exc: …`
  unfoldable pub recover_observations :
      String → (Observation → Action World Unit) → List Observation → Action World Unit
  recover_observations context recover rows =
      for_each rows
        (λ obs. try_except (recover obs) (record_observation_recovery_failure obs.id context))

  unfoldable pub recover_runs : List ProcessingRun → Action World Unit
  recover_runs rows = for_each rows (λ r.
      try_except (remove_partial_products r)
        (record_run_recovery_failure r.id "interrupted processing"))

  unfoldable pub note_orphan : FilePath → String → Exc → Action World Unit
  note_orphan root name exc = on_db (
      record_event reconcile 0 (
        concat ("orphan " ∷ path_text (root ++ "observations" ∷ name ∷ []) ∷ ": " ∷ repr exc ∷ [])))

  -- One child of the directory of observations; `known` are the paths in the database.
  unfoldable pub sweep_child : FilePath → List FilePath → String → Action World Unit
  sweep_child root known name =
      if any (path_eq (root ++ "observations" ∷ name ∷ [])) known
      then skip
      else try_except (quarantine_orphan root name) (note_orphan root name)

  unfoldable pub sweep_directory : FilePath → List FilePath → Action World Unit
  sweep_directory root known = do
    listable ← gets (λ w. is_dir (root ++ "observations" ∷ []) w.files)
    raise_if (not listable) (os_error (path_text (root ++ "observations" ∷ [])))
    names ← gets (λ w. iterdir (root ++ "observations" ∷ []) w.files)
    for_each names (sweep_child root known)

  unfoldable pub quarantine_orphans : FilePath → Action World Unit
  quarantine_orphans root = do
    known ← gets (λ w. map (λ (o : Observation). o.ms_path) (list_observations [] w.db))
    there ← gets (λ w. exists (root ++ "observations" ∷ []) w.files)
    if there then sweep_directory root known else skip

  -- startup_reconcile; `kill_managed` is the runner's.
  unfoldable pub startup_reconcile : Action World Unit → FilePath → Action World Unit
  startup_reconcile kill_managed root = do
    kill_managed
    half_observed ← gets (λ w. list_observations (observing ∷ []) w.db)
    recover_observations "interrupted observation" (quarantine_partial root) half_observed
    half_run ← gets (λ w. list_runs (running ∷ []) none w.db)
    recover_runs half_run
    accepted_rows ← gets (λ w. list_observations (stored ∷ []) w.db)
    recover_observations "accepted deletion repair" resume_accepted accepted_rows
    deleting_rows ← gets (λ w. list_observations (deleting ∷ []) w.db)
    recover_observations "deletion completion" (λ o. finish_observation_deletion root o.id)
        deleting_rows
    stored_rows ← gets (λ w. list_observations (stored ∷ []) w.db)
    recover_observations "stored-MS verification" verify_stored stored_rows
    quarantine_orphans root

-- resolve_observation_drop
unfoldable pub resolve_observation_drop : FilePath → ℕ → String → Action World Unit
resolve_observation_drop root oid note = force_drop_observation_data root oid note
