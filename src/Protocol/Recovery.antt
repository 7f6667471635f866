-- ===== src/Protocol/Recovery.antt =====
-- The recovery at the start, as steps of the store.
use ska_sdp_mini_control.Prelude.{
  ℕ, ◌≤◌, ◌≡◌, refl, true, false, not, ◌&&◌, Bool-cases, inl, inr, String, Exc, Action, ok, arith,
  List, [], ◌∷◌, ◌++◌, ◌>>=◌, ◌>>◌, some, none, any, tx, os_error,
}
use ska_sdp_mini_control.Prelude.Ensures.{
  Ensures, returned, bind_ok, then_ok, bind_then, raise_if-then, raise_if_passes, try_rule,
  finally_ok, returned_ok, for_each_rule, either_way,
}
use ska_sdp_mini_control.Prelude.Format.{concat}
use ska_sdp_mini_control.Models.{
  FilePath, Observation, ProcessingRun, observing, observe_failed, inconsistent, failed, running,
  stored,
}
use ska_sdp_mini_control.Files.{path_text, exists, is_dir, parent, path_eq}
use ska_sdp_mini_control.Store.Tables.{EntityType, empty_db}
use ska_sdp_mini_control.Store.Tables
use ska_sdp_mini_control.Store.Observations.{record_event, force_observation_fields}
use ska_sdp_mini_control.Store.Runs.{has_accepted_run, has_active_runs}
use ska_sdp_mini_control.Storage.{World, on_db}
use ska_sdp_mini_control.Storage.Deletion.{finish_observation_deletion}
use ska_sdp_mini_control.Reconcile.{
  obs_label, interrupted, interrupted_run, resumed, ms_missing, quarantine_partial,
  remove_partial_products, resume_accepted, verify_stored, quarantine_orphan, failure_message,
  record_observation_recovery_failure, record_run_recovery_failure, recover_observations,
  recover_runs, note_orphan, sweep_child, sweep_directory, quarantine_orphans, startup_reconcile,
}
use ska_sdp_mini_control.Protocol.Steps.{Steps}
use ska_sdp_mini_control.Protocol.Kept.{
  InReach, StaysInReach, files-InReach, quarantine-InReach, transition_observation-InReach,
  resume-InReach, transition_run-InReach, record_event-InReach, set_error-InReach, finish-InReach,
}

-- The directory of observations is there, but it is a file.
abbrev pub NotListable : FilePath → World → Type 0
NotListable root t =
    (exists (root ++ "observations" ∷ []) t.files ≡ true)
    × (is_dir (root ++ "observations" ∷ []) t.files ≡ false)

module _ (n : ℕ) (room : 1 ≤ n) where
  quarantine_partial-InReach :
      (root : FilePath) (obs : Observation) (w : World)
      → InReach n w
      → StaysInReach n (quarantine_partial root obs w)
  unfolding quarantine_partial
  quarantine_partial-InReach root obs w reached = bind_ok _ _ w refl (
      bind_then (InReach n) _ _ w
        (elim (Bool-cases (exists obs.ms_path w.files)) [
          | inl there ↦ rw there (
              bind_then (InReach n) _ _ w
                (quarantine-InReach n root obs.ms_path (obs_label obs.id "partial") w reached)
                λ t kept. returned kept)
          | inr gone ↦ rw gone (returned reached)
        ])
        λ t kept.
          transition_observation-InReach n obs.id observing observe_failed interrupted t
            (λ e. ground arith) (λ e. refl) kept)

  remove_partial_products-InReach :
      (r : ProcessingRun) (w : World) → InReach n w → StaysInReach n (remove_partial_products r w)
  unfolding remove_partial_products
  remove_partial_products-InReach r w reached = bind_ok _ _ w refl (
      bind_then (InReach n) _ _ w
        (elim (Bool-cases (exists (parent r.output_prefix) w.files)) [
          | inl there ↦ rw there (files-InReach n _ w reached)
          | inr gone ↦ rw gone (returned reached)
        ])
        λ t kept.
          transition_run-InReach n r.id running failed interrupted_run t (λ e. ground arith) kept)

  resume_accepted-InReach :
      (obs : Observation) (w : World) → InReach n w → StaysInReach n (resume_accepted obs w)
  unfolding resume_accepted
  resume_accepted-InReach obs w reached =
      bind_ok _ _ w refl
        (elim (Bool-cases (has_accepted_run obs.id w.db && not (has_active_runs obs.id w.db))) [
          | inl due ↦ rw due (resume-InReach n obs.id resumed w (ground arith) refl reached)
          | inr settled ↦ rw settled (returned reached)
        ])

  verify_stored-InReach :
      (obs : Observation) (w : World) → InReach n w → StaysInReach n (verify_stored obs w)
  unfolding verify_stored
  verify_stored-InReach obs w reached =
      bind_ok _ _ w refl (elim (Bool-cases (exists obs.ms_path w.files)) [
        | inl there ↦ rw there (returned reached)
        | inr gone ↦ rw gone (
            transition_observation-InReach n obs.id stored inconsistent ms_missing w
              (λ e. ground arith) (λ e. refl) reached)
      ])

  module _ {E : World → Type 0} (repr : Exc → String) where
    -- A note in the log never raises.
    note-InReach :
        (kind : EntityType) (entity : ℕ) (reason : String) (w : World)
        → InReach n w
        → Ensures (λ _ t. InReach n t) E (on_db (record_event kind entity reason) w)
    unfolding on_db record_event tx
    note-InReach kind entity reason w reached =
        returned_ok tt refl (record_event-InReach n kind entity reason w reached)

    record_observation-InReach :
        (oid : ℕ) (context : String) (exc : Exc) (w : World)
        → InReach n w
        → Ensures
            (λ _ t. InReach n t)
            E
            (record_observation_recovery_failure repr oid context exc w)
    unfolding record_observation_recovery_failure on_db force_observation_fields tx ◌>>◌ ◌>>=◌
    record_observation-InReach oid context exc w reached =
        let message = failure_message repr context exc in
        finally_ok (on_db (force_observation_fields oid none (some message))) _ w refl (
          either_way
            (λ t.
              Ensures (λ _ u. InReach n u) E
                (on_db (record_event Tables.observation oid message) t))
            (λ _ t kept. note-InReach Tables.observation oid message t kept)
            (λ t kept. note-InReach Tables.observation oid message t kept)
            (set_error-InReach n oid message w reached))

    recover_observations-InReach :
        (context : String) (recover : Observation → Action World Unit) (rows : List Observation)
        (w : World)
        → ((obs : Observation) (s : World) → InReach n s → StaysInReach n (recover obs s))
        → InReach n w
        → Ensures (λ _ t. InReach n t) E (recover_observations repr context recover rows w)
    unfolding recover_observations
    recover_observations-InReach context recover rows w each reached =
        for_each_rule (λ _ t. InReach n t) _
          (λ obs rest s holds.
            try_rule (InReach n) (recover obs) _ s (each obs s holds)
              λ e t kept. record_observation-InReach obs.id context e t kept)
          rows w reached

    recover_runs-InReach :
        (rows : List ProcessingRun) (w : World)
        → InReach n w
        → Ensures (λ _ t. InReach n t) E (recover_runs repr rows w)
    unfolding recover_runs record_run_recovery_failure
    recover_runs-InReach rows w reached =
        for_each_rule (λ _ t. InReach n t) _
          (λ r rest s holds.
            try_rule (InReach n) (remove_partial_products r) _ s
              (remove_partial_products-InReach r s holds)
              λ e t kept.
                note-InReach Tables.run r.id (failure_message repr "interrupted processing" e) t
                  kept)
          rows w reached

    sweep_child-InReach :
        (root : FilePath) (known : List FilePath) (name : String) (w : World)
        → InReach n w
        → Ensures (λ _ t. InReach n t) E (sweep_child repr root known name w)
    unfolding sweep_child quarantine_orphan note_orphan
    sweep_child-InReach root known name w reached =
        elim (Bool-cases (any (path_eq (root ++ "observations" ∷ name ∷ [])) known)) [
          | inl listed ↦ rw listed (returned reached)
          | inr orphan ↦ rw orphan (
              try_rule (InReach n) (quarantine_orphan root name) _ w
                (bind_then (InReach n) _ _ w
                  (quarantine-InReach n root (root ++ "observations" ∷ name ∷ [])
                    (concat ("orphan-" ∷ name ∷ [])) w reached)
                  λ t kept. returned kept)
                λ e t kept. note-InReach Tables.reconcile 0 _ t kept)
        ]

  quarantine_orphans-InReach :
      (repr : Exc → String) (root : FilePath) (w : World)
      → InReach n w
      → Ensures
          (λ _ t. InReach n t)
          (λ t. InReach n t × NotListable root t)
          (quarantine_orphans repr root w)
  unfolding quarantine_orphans sweep_directory
  quarantine_orphans-InReach repr root w reached = bind_ok _ _ w refl (
      bind_ok _ _ w refl (elim (Bool-cases (exists (root ++ "observations" ∷ []) w.files)) [
        | inr gone ↦ rw gone (returned reached)
        | inl there ↦ rw there (
            bind_ok _ _ w refl (elim (Bool-cases (is_dir (root ++ "observations" ∷ []) w.files)) [
              | inr single ↦
                  rw single (raise_if-then true _ _ w (reached, (there, single)) λ e. absurd cc)
              | inl listable ↦ rw listable (
                  raise_if_passes false (os_error (path_text (root ++ "observations" ∷ []))) _ w
                    refl
                    (bind_ok _ _ w refl (
                      for_each_rule (λ _ t. InReach n t) _
                        (λ name rest s holds. sweep_child-InReach repr root _ name s holds) _ w
                        reached)))
            ]))
      ]))

  -- After the gate (the runner's `kill_managed`) has returned, the recovery of a reachable store
  -- leaves a reachable store, whatever fails in between. It can raise only at its end, where the
  -- directory of observations is a file.
  pub startup_reconcile_lem :
      (repr : Exc → String) (kill_managed : Action World Unit) (root : FilePath) (w0 w : World)
      → kill_managed w0 ≡ (ok tt, w)
      → Steps n empty_db w.db
      → Ensures
          (λ _ t. Steps n empty_db t.db)
          (λ t. Steps n empty_db t.db × NotListable root t)
          (startup_reconcile repr kill_managed root w0)
  unfolding startup_reconcile
  startup_reconcile_lem repr kill_managed root w0 w gate reached = then_ok _ _ w0 gate (
      bind_ok _ _ w refl (
        bind_then (InReach n) _ _ w
          (recover_observations-InReach repr "interrupted observation" (quarantine_partial root) _ w
            (quarantine_partial-InReach root) reached)
          λ a ra. bind_ok _ _ a refl (
            bind_then (InReach n) _ _ a (recover_runs-InReach repr _ a ra) λ b rb.
              bind_ok _ _ b refl (
                bind_then (InReach n) _ _ b
                  (recover_observations-InReach repr "accepted deletion repair" resume_accepted _ b
                    resume_accepted-InReach rb)
                  λ c rc. bind_ok _ _ c refl (
                    bind_then (InReach n) _ _ c
                      (recover_observations-InReach repr "deletion completion"
                        (λ o. finish_observation_deletion root o.id) _ c
                        (λ o s holds. finish-InReach n root o.id s room holds) rc)
                      λ d rd. bind_ok _ _ d refl (
                        bind_then (InReach n) _ _ d
                          (recover_observations-InReach repr "stored-MS verification" verify_stored
                            _ d verify_stored-InReach rd)
                          λ e re. quarantine_orphans-InReach repr root e re))))))
