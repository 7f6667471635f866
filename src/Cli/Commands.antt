-- ===== src/Cli/Commands.antt =====
-- What the commands of the operator do to a reachable store.
use ska_sdp_mini_control.Prelude.{
  ℕ, ◌≤◌, refl, Bool, Bool-cases, Option-cases, inl, inr, or_raise, value_error, String, Result, ok,
  err, Action, [], ◌∷◌, ◌++◌, ◌>>=◌,
}
use ska_sdp_mini_control.Prelude.Ensures.{
  Ensures, returned, raised, bind, bind_ok, bind_then, raise_if-then, either_way,
}
use ska_sdp_mini_control.Prelude.Format.{concat}
use ska_sdp_mini_control.Models.{FilePath}
use ska_sdp_mini_control.Files.{is_dir}
use ska_sdp_mini_control.Store.Tables.{empty_db}
use ska_sdp_mini_control.Storage.{
  World, in_own_process, ensure_layout, physical_snapshot, auxiliary_charged_storage, refresh,
  invalidate_auxiliary_cache,
}
use ska_sdp_mini_control.Storage.Deletion.{force_drop_observation_data}
use ska_sdp_mini_control.Qa.{accept_run, reprocess_run, discard_failed_run}
use ska_sdp_mini_control.Reconcile.{resolve_observation_drop}
use ska_sdp_mini_control.Scheduler.{Config}
use ska_sdp_mini_control.Cli.{
  RunnerKind, runner_kind, build, status, drop_note, qa_list, purge, quarantine_list, resolve,
  Command, show_status, list_qa, accept, reprocess, discard, timeline, resolve_drop,
  list_quarantine, purge_quarantine, run_command, main,
}
use ska_sdp_mini_control.Protocol.Steps.{Steps}
use ska_sdp_mini_control.Protocol.Kept.{InReach, StaysInReach, files-InReach}
use ska_sdp_mini_control.Protocol.Operators.{
  accept_run-Steps, discard_failed_run-Steps, reprocess_run-Steps,
  force_drop_observation_data-Steps,
}

module _ (n : ℕ) (room : 1 ≤ n) where
  layout-InReach :
      (root : FilePath) (w : World) → InReach n w → StaysInReach n (ensure_layout root w)
  unfolding ensure_layout
  layout-InReach root w reached = bind_then (InReach n) _ _ w (files-InReach n _ w reached) λ a ra.
      bind_then (InReach n) _ _ a (files-InReach n _ a ra) λ b rb.
        bind_then (InReach n) _ _ b (files-InReach n _ b rb) λ c rc.
          bind_then (InReach n) _ _ c (files-InReach n _ c rc) λ d rd. files-InReach n _ d rd

  chosen :
      (name : String) (w : World)
      → InReach n w
      → Ensures
          (λ _ t. InReach n t)
          (InReach n)
          (or_raise {A = RunnerKind}
            (runner_kind name)
            (value_error (concat ("unknown runner '" ∷ name ∷ "'" ∷ [])))
            w)
  chosen name w reached = elim (Option-cases (runner_kind name)) [
    | inl unknown ↦ rw unknown (raised reached)
    | inr (kind, is_known) ↦ rw is_known (returned reached)
  ]

  pub build-InReach :
      (root : FilePath) (name : String) (w : World)
      → InReach n w
      → Ensures (λ _ t. InReach n t) (InReach n) (build root name w)
  unfolding build
  build-InReach root name w reached =
      bind_then (InReach n) _ _ w (layout-InReach root w reached) λ t r. chosen name t r

  -- A call of which it is known that its store can be reached.
  known : {A : Type 0} (m : Action World A) (w : World) → InReach n (m w).1 → StaysInReach n (m w)
  known m w h = go (m w) h
    where
      go : {A : Type 0} (r : Result A × World) → InReach n r.1 → StaysInReach n r
      go (ok a, t) h = returned h
      go (err e, t) h = raised h

  purge-InReach :
      (root : FilePath) (name : String) (w : World)
      → InReach n w
      → StaysInReach n (purge root name w)
  unfolding purge invalidate_auxiliary_cache
  purge-InReach root name w reached = bind_ok _ _ w refl (
      raise_if-then _ _ _ w reached λ there. bind_ok _ _ w refl (
        bind_then (InReach n) _ _ w
          (elim (Bool-cases (is_dir (root ++ "quarantine" ∷ name ∷ []) w.files)) [
            | inl folder ↦ rw folder (files-InReach n _ w reached)
            | inr single ↦ rw single (files-InReach n _ w reached)
          ])
          λ t kept. returned kept))

  quarantine_list-InReach :
      (root : FilePath) (w : World) → InReach n w → StaysInReach n (quarantine_list root w)
  unfolding quarantine_list
  quarantine_list-InReach root w reached =
      bind_ok _ _ w refl (raise_if-then _ _ _ w reached λ listable. returned reached)

  resolve-InReach :
      (root : FilePath) (oid : ℕ) (drop : Bool) (w : World)
      → InReach n w
      → StaysInReach n (resolve root oid drop w)
  unfolding resolve resolve_observation_drop
  resolve-InReach root oid drop w reached = raise_if-then _ _ _ w reached λ dropping.
      known (force_drop_observation_data root oid drop_note) w
        (force_drop_observation_data-Steps n room root oid drop_note w reached)

  status-InReach : (cfg : Config) (w : World) → InReach n w → StaysInReach n (status cfg w)
  unfolding status physical_snapshot auxiliary_charged_storage refresh ◌>>=◌
  status-InReach cfg w reached = returned reached

  run_command-InReach :
      (cfg : Config) (command : Command) (w : World)
      → InReach n w
      → StaysInReach n (run_command cfg command w)
  unfolding run_command qa_list
  run_command-InReach cfg show_status w reached =
      bind (λ _ t. InReach n t) _ _ w (status-InReach cfg w reached) λ s t kept. returned kept
  run_command-InReach cfg list_qa w reached = bind_ok _ _ w refl (returned reached)
  run_command-InReach cfg (accept rid note) w reached =
      bind_then (InReach n) _ _ w
        (known (accept_run cfg.data_root rid note) w
          (accept_run-Steps n room cfg.data_root rid note w reached))
        λ t kept. returned kept
  run_command-InReach cfg (reprocess rid note) w reached =
      bind (λ _ t. InReach n t) _ _ w
        (known (reprocess_run cfg.data_root rid note) w
          (reprocess_run-Steps n room cfg.data_root rid note w reached))
        λ new t kept. returned kept
  run_command-InReach cfg (discard rid note) w reached =
      bind_then (InReach n) _ _ w
        (known (discard_failed_run cfg.data_root rid note) w
          (discard_failed_run-Steps n room cfg.data_root rid note w reached))
        λ t kept. returned kept
  run_command-InReach cfg (timeline kind entity) w reached = bind_ok _ _ w refl (returned reached)
  run_command-InReach cfg (resolve_drop oid drop) w reached =
      bind_then (InReach n) _ _ w (resolve-InReach cfg.data_root oid drop w reached)
        λ t kept. returned kept
  run_command-InReach cfg list_quarantine w reached =
      bind (λ _ t. InReach n t) _ _ w (quarantine_list-InReach cfg.data_root w reached)
        λ xs t kept. returned kept
  run_command-InReach cfg (purge_quarantine name) w reached =
      bind_then (InReach n) _ _ w (purge-InReach cfg.data_root name w reached)
        λ t kept. returned kept

  -- Every command of the operator takes a reachable store to a reachable store, whether it returns
  -- or raises.
  pub main-Steps :
      (cfg : Config) (runner : String) (command : Command) (w : World)
      → Steps n empty_db w.db
      → Steps n empty_db (main cfg runner command w).1.db
  unfolding main in_own_process
  main-Steps cfg runner command w reached =
      either_way (InReach n) (λ _ t h. h) (λ t h. h)
        (bind_then (InReach n) _ _ (record w { aux_cache = [] })
          (build-InReach cfg.data_root runner (record w { aux_cache = [] }) reached)
          λ t kept. run_command-InReach cfg command t kept)
