-- ===== src/Protocol/Creation.antt =====
-- New observations and runs, marks, and plain events keep the invariant.
use ska_sdp_mini_control.Prelude.{
  ℕ, suc, ◌≤◌, ◌≡◌, inl, inr, refl, Bool, true, false, List, [], ◌∷◌, ◌++◌, count, Memᴰ, ◌==◌,
  arith, some, none, String, Bool-cases, Result, any, any-false, tx, ◌>>=◌, ◌>>◌,
}
use ska_sdp_mini_control.Prelude.Ensures.{
  Ensures, returned, raised, tx_rule, bind, bind_then, bind_ok, then_ok, raise_if-then,
}
use ska_sdp_mini_control.Models.{FilePath, Observation, ProcessingRun, planned, queued, failed}
use ska_sdp_mini_control.Store.Tables.{
  Db, Event, observation, EntityState, EntityType, obs_state, run_state, run_row, obs_row,
  of_observation, add_event,
}
use ska_sdp_mini_control.Store.Tables
use ska_sdp_mini_control.Store.Observations.{
  create_observation_auto, record_event, force_observation_fields, force_fields, ms_name,
}
use ska_sdp_mini_control.Store.Observations.Outcomes.{create_observation_auto_lem, new_observation}
use ska_sdp_mini_control.Store.Runs.{create_run, next_attempt, new_run, append_run}
use ska_sdp_mini_control.Store.Retries.{
  mark_exhausted_failed_runs, mark_run_retry_exhausted, is_newly_exhausted, is_unmarked_failure,
  set_exhausted, log_exhausted,
}
use ska_sdp_mini_control.Protocol.Invariant.{Inv, was_stored}
use ska_sdp_mini_control.Protocol.Rows.{RunUpdate}
use ska_sdp_mini_control.Protocol.Writes.{
  Inv-event, Inv-obs_written, Inv-obs_inserted, Inv-run_marked, Inv-run_inserted,
}

-- What `create_run` writes where it returns.
abbrev pub Created : ℕ → FilePath → FilePath → Db → ℕ → Db → Type 0
Created oid output_prefix log_path db rid db' =
    (rid ≡ suc db.run_seq)
    × (db'
        ≡ add_event Tables.run rid none (some (run_state queued)) "created"
            (append_run (new_run rid oid (next_attempt oid db) output_prefix log_path) db))

pub create_run_lem :
    (oid : ℕ) (output_prefix log_path : FilePath) (db : Db)
    → Ensures
        (Created oid output_prefix log_path db)
        (λ t. t ≡ db)
        (create_run oid output_prefix log_path db)
unfolding create_run
create_run_lem oid output_prefix log_path db =
    tx_rule (Created oid output_prefix log_path db) _ db (
      bind_ok _ _ db refl (
        bind
          (λ rid t.
            (rid ≡ suc db.run_seq)
            × (t ≡ append_run (new_run rid oid (next_attempt oid db) output_prefix log_path) db))
          _ _ db
          (bind_ok _ _ db refl (
            raise_if-then _ _ _ db tt λ untaken.
              bind_ok _ _ db refl (raise_if-then _ _ _ db tt λ known. returned (refl, refl))))
          λ rid t (e, same). rw same (then_ok _ _ _ refl (returned (e, refl)))))

-- Only failed runs are marked.
exhausted_fits :
    (p : ProcessingRun → Bool)
    → ((x : ProcessingRun) → p x ≡ true → x.state ≡ failed)
    → RunUpdate p set_exhausted
exhausted_fits p only = record {
  keeps_id = λ x. refl;
  keeps_owner = λ x. refl;
  keeps_attempt = λ x. refl;
  live = λ x t e. ground (arith, only x t);
  undecided = λ x t e. e;
}

module _ (n : ℕ) (db : Db) (inv : Inv n db) where
  pub Inv-create_observation_auto :
      (root : FilePath) (reserved : ℕ) → Inv n (create_observation_auto root reserved db).1
  unfolding add_event
  Inv-create_observation_auto root reserved =
      rw (create_observation_auto_lem root reserved db inv.obs_ids) (
        Inv-event n _
          (Inv-obs_inserted n db inv
            (new_observation (suc db.obs_seq) (root ++ ms_name (suc db.obs_seq) ∷ []) reserved) refl
            refl)
          observation (suc db.obs_seq) none (some (obs_state planned)) "created" refl)

  -- The initial run of a STORED observation that has none.
  pub Inv-create_run :
      (o : Observation) (output_prefix log_path : FilePath)
      → 1 ≤ n
      → Memᴰ o db.observations
      → was_stored o.state ≡ true
      → any (of_observation o.id) db.runs ≡ false
      → Inv n (create_run o.id output_prefix log_path db).1
  unfolding add_event
  Inv-create_run o output_prefix log_path room mo at none_yet =
      go _ (create_run_lem o.id output_prefix log_path db)
    where
      go :
          (r : Result ℕ × Db)
          → Ensures (Created o.id output_prefix log_path db) (λ t. t ≡ db) r
          → Inv n r.1
      go _ (raised same) = rw same inv
      go _ (returned (new_id, same)) =
          rw (same, new_id)
            (Inv-event n _
              (Inv-run_inserted n db inv _ refl refl room (o, mo, refl, at)
                (λ x mx owner.
                  absurd (ground (arith, any-false (of_observation o.id) db.runs none_yet mx))))
              Tables.run (suc db.run_seq) none (some (run_state queued)) "created" refl)

  pub Inv-record_event :
      (kind : EntityType) (entity : ℕ) (reason : String)
      → Inv n (record_event kind entity reason db).1
  unfolding record_event tx
  Inv-record_event kind entity reason = Inv-event n db inv kind entity none none reason refl

  -- Only the error text is forced by the callers.
  pub Inv-force_error :
      (oid : ℕ) (error : String) → Inv n (force_observation_fields oid none (some error) db).1
  unfolding force_observation_fields force_fields tx ◌>>◌
  Inv-force_error oid error = Inv-obs_written n db inv _ _ (record {
    keeps_id = λ x. refl;
    keeps_stored = λ x t e. e;
    permitted = λ x m t. (inv.deletions x m).0;
    dropped = λ x m t. (inv.deletions x m).1;
    released = λ x t old a b. old a b;
  })

  pub Inv-mark_run_retry_exhausted :
      (rid : ℕ) (reason : String) → Inv n (mark_run_retry_exhausted rid reason db).1
  unfolding mark_run_retry_exhausted tx ◌>>=◌
  Inv-mark_run_retry_exhausted rid reason =
      let marked =
        Inv-run_marked n db inv (is_unmarked_failure rid) set_exhausted
          (exhausted_fits (is_unmarked_failure rid) (λ x t. ground arith)) (λ x. refl) in
      elim (Bool-cases (count (is_unmarked_failure rid) db.runs == 0)) [
        | inl nothing ↦ rw nothing marked
        | inr some_row ↦ rw some_row (Inv-event n _ marked Tables.run rid none none reason refl)
      ]

Inv-log_exhausted :
    (n max_attempts : ℕ) (rids : List ℕ) (db : Db)
    → Inv n db
    → Ensures (λ _ t. Inv n t) (λ _. Unit) (log_exhausted max_attempts rids db)
unfolding log_exhausted
Inv-log_exhausted n max_attempts [] db inv = returned inv
Inv-log_exhausted n max_attempts (rid ∷ rids) db inv =
    then_ok _ _ db refl
      (Inv-log_exhausted n max_attempts rids _ (Inv-event n db inv Tables.run rid none none _ refl))

pub Inv-mark_exhausted_failed_runs :
    (n max_attempts : ℕ) (db : Db) → Inv n db → Inv n (mark_exhausted_failed_runs max_attempts db).1
unfolding mark_exhausted_failed_runs
Inv-mark_exhausted_failed_runs n max_attempts db inv = go _ (
    tx_rule (λ _ t. Inv n t) _ db
      (bind_ok _ _ db refl (
        bind_then (Inv n) _ _ _
          (Inv-log_exhausted n max_attempts _ _ (
            Inv-run_marked n db inv (is_newly_exhausted max_attempts db) set_exhausted
              (exhausted_fits (is_newly_exhausted max_attempts db) (λ x t. ground arith))
              (λ x. refl)))
          λ t h. returned h)))
  where
    go : (r : Result (List ℕ) × Db) → Ensures (λ _ t. Inv n t) (λ t. t ≡ db) r → Inv n r.1
    go _ (raised same) = rw same inv
    go _ (returned h) = h
