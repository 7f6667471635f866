-- ===== src/Protocol/Operators.antt =====
-- The operator's commands and the deletion of raw data, as steps of the store.
use ska_sdp_mini_control.Prelude.{
  ℕ, ◌+◌, ◌≤◌, ◌≡◌, ◌≢◌, inl, inr, refl, sym, subst, ap, true, some, ok, String, arith, Result,
}
use ska_sdp_mini_control.Prelude.Ensures.{either_way}
use ska_sdp_mini_control.Models.{
  FilePath, Observation, ObservationState, deleting, deleted, obs_state_in, obs_transitions,
}
use ska_sdp_mini_control.Models.Graph.{obs_state_eq_iff}
use ska_sdp_mini_control.Store.Tables.{Db, empty_db, obs_row}
use ska_sdp_mini_control.Store.Observations.{ObservationChange, transition_observation}
use ska_sdp_mini_control.Store.Observations.Outcomes.{obs_id, transition_observation_lem, obs_moved}
use ska_sdp_mini_control.Store.Verdicts.Outcomes.{Accepted, Discarded, Reprocessed}
use ska_sdp_mini_control.Store.Verdicts.Returns.{accept_returns, discard_returns}
use ska_sdp_mini_control.Storage.{World}
use ska_sdp_mini_control.Storage.Deletion.{
  raw_removed, dropped_by_operator, finish_observation_deletion, force_drop_observation_data,
}
use ska_sdp_mini_control.Storage.Deletion.Finish.{
  Deleted, Dropped, finish_observation_deletion-Deleted, force_drop_observation_data_lem,
}
use ska_sdp_mini_control.Qa.{
  accept_run, reprocess_run, discard_failed_run, product_prefix, process_log,
}
use ska_sdp_mini_control.Qa.Outcomes.{
  Through, Halted, accept_run_lem, discard_failed_run_lem, reprocess_run_lem,
}
use ska_sdp_mini_control.Protocol.Invariant.{Inv}
use ska_sdp_mini_control.Protocol.Steps.{
  Steps, Steps-Inv, next, advance_obs, accept, discard, reprocess,
}
use ska_sdp_mini_control.Protocol.Guarantees.{empty_db-Inv, reprocess_goes_through}

module _ (n : ℕ) (room : 1 ≤ n) where
  -- What the controller can reach.
  abbrev Reached : Db → Type 0
  Reached db = Steps n empty_db db

  inv_of : (db : Db) → Reached db → Inv n db
  inv_of db reached = Steps-Inv room reached (empty_db-Inv n)

  -- A move of an observation that is there, to a state that is allowed.
  moved-Reached :
      (oid : ℕ) (to : ObservationState) (c : ObservationChange) (db : Db) (o : Observation)
      → Reached db
      → obs_row oid db ≡ some o
      → obs_state_in to (obs_transitions o.state) ≡ true
      → to ≢ deleting
      → c.reserved_bytes ≡ some 0
      → Reached (obs_moved o.id o.state to c db)
  moved-Reached oid to c db o reached found legal other released =
      let same : o.id ≡ oid = obs_id oid db found in
      let found' : obs_row o.id db ≡ some o = subst (λ k. obs_row k db ≡ some o) (sym same) found in
      let runs = transition_observation_lem o.id o.state to c db (inv_of db reached).obs_ids in
      let goes : transition_observation o.id o.state to c db
          ≡ (ok tt, obs_moved o.id o.state to c db) =
        ground (arith, runs, found', legal, obs_state_eq_iff o.state o.state) in
      subst (λ t. Reached t) (ap (λ (r : Result Unit × Db). r.1) goes)
        (next reached (advance_obs db o.id o.state to c other (λ e. released)))

  pub Deleted-Reached :
      (root : FilePath) (oid : ℕ) (db : Db) (t : World)
      → Reached db
      → Deleted root oid db t
      → Reached t.db
  unfolding Deleted obs_transitions
  Deleted-Reached root oid db t reached (o, found, at, written, gone, empty) =
      rw (written, ← at)
        (moved-Reached oid deleted raw_removed db o reached found (rw at refl) (λ e. ground arith)
          refl)

  pub Dropped-Reached :
      (root : FilePath) (oid : ℕ) (reason : String) (db : Db) (t : World)
      → Reached db
      → Dropped root oid reason db t
      → Reached t.db
  unfolding Dropped obs_transitions
  Dropped-Reached root oid reason db t reached (o, found, at, written, gone, empty) = rw written (
      moved-Reached oid deleted (dropped_by_operator reason) db o reached found (ground arith)
        (λ e. ground arith) refl)

  Accepted-Reached :
      (rid : ℕ) (note : String) (db : Db) (oid : ℕ) (t : Db)
      → Reached db
      → Accepted rid note db oid t
      → Reached t
  unfolding Accepted
  Accepted-Reached rid note db oid t reached (r, checked, at, names, written) =
      let inv = inv_of db reached in
      let goes =
        accept_returns rid db r checked.obs inv.obs_ids inv.run_ids checked.run_found
          checked.obs_found checked.obs_stored checked.no_other note at in
      rw (written, names)
        (subst (λ u. Reached u) (ap (λ (x : Result ℕ × Db). x.1) goes)
          (next reached (accept db rid note)))

  Discarded-Reached :
      (rid : ℕ) (note : String) (db : Db) (oid : ℕ) (t : Db)
      → Reached db
      → Discarded rid note db oid t
      → Reached t
  unfolding Discarded
  Discarded-Reached rid note db oid t reached (r, checked, at, names, written) =
      let inv = inv_of db reached in
      let goes =
        discard_returns rid db r checked.obs inv.obs_ids inv.run_ids checked.run_found
          checked.obs_found checked.obs_stored checked.no_other note at in
      rw (written, names)
        (subst (λ u. Reached u) (ap (λ (x : Result ℕ × Db). x.1) goes)
          (next reached (discard db rid note)))

  Reprocessed-Reached :
      (rid : ℕ) (output_prefix log_path : FilePath) (note : String) (db : Db) (new_rid : ℕ) (t : Db)
      → Reached db
      → Reprocessed rid output_prefix log_path note db new_rid t
      → Reached t
  unfolding Reprocessed
  Reprocessed-Reached rid output_prefix log_path note db new_rid t reached
        (r, checked, at, names, written) =
      let goes =
        reprocess_goes_through n db room reached rid output_prefix log_path note r checked.obs
          checked.run_found at checked.obs_found checked.obs_stored in
      rw written (
        subst (λ u. Reached u) (ap (λ (x : Result ℕ × Db). x.1) goes)
          (next reached (reprocess db rid output_prefix log_path note)))

  -- A verdict with its deletion.
  Through-Reached :
      (root : FilePath) (V : ℕ → Db → Type 0) (t : World)
      → ((oid : ℕ) (db : Db) → V oid db → Reached db)
      → Through root V t
      → Reached t.db
  unfolding Through
  Through-Reached root V t verdict (oid, db, said, done) =
      Deleted-Reached root oid db t (verdict oid db said) done

  Halted-Reached :
      (w : World) (V : ℕ → Db → Type 0) (t : World)
      → Reached w.db
      → ((oid : ℕ) (db : Db) → V oid db → Reached db)
      → Halted w V t
      → Reached t.db
  unfolding Halted
  Halted-Reached w V t reached verdict (inl same) = rw same reached
  Halted-Reached w V t reached verdict (inr (oid, db, said, here)) = rw here (verdict oid db said)

  -- `qa accept` at a reachable store leaves a reachable store, whether it returns or raises.
  pub accept_run-Steps :
      (root : FilePath) (rid : ℕ) (note : String) (w : World)
      → Steps n empty_db w.db
      → Steps n empty_db (accept_run root rid note w).1.db
  accept_run-Steps root rid note w reached =
      let verdict = λ (oid : ℕ) (db : Db) (said : Accepted rid note w.db oid db).
        Accepted-Reached rid note w.db oid db reached said in
      either_way (λ (t : World). Reached t.db)
        (λ _ t through. Through-Reached root (Accepted rid note w.db) t verdict through)
        (λ t halted. Halted-Reached w (Accepted rid note w.db) t reached verdict halted)
        (accept_run_lem root rid note w)

  -- `qa discard` at a reachable store leaves a reachable store, whether it returns or raises.
  pub discard_failed_run-Steps :
      (root : FilePath) (rid : ℕ) (note : String) (w : World)
      → Steps n empty_db w.db
      → Steps n empty_db (discard_failed_run root rid note w).1.db
  discard_failed_run-Steps root rid note w reached =
      let verdict = λ (oid : ℕ) (db : Db) (said : Discarded rid note w.db oid db).
        Discarded-Reached rid note w.db oid db reached said in
      either_way (λ (t : World). Reached t.db)
        (λ _ t through. Through-Reached root (Discarded rid note w.db) t verdict through)
        (λ t halted. Halted-Reached w (Discarded rid note w.db) t reached verdict halted)
        (discard_failed_run_lem root rid note w)

  -- `qa reprocess` at a reachable store leaves a reachable store, whether it returns or raises.
  pub reprocess_run-Steps :
      (root : FilePath) (rid : ℕ) (note : String) (w : World)
      → Steps n empty_db w.db
      → Steps n empty_db (reprocess_run root rid note w).1.db
  reprocess_run-Steps root rid note w reached =
      either_way (λ (t : World). Reached t.db)
        (λ new_rid t (r, found, done, same).
          Reprocessed-Reached rid (product_prefix root r.observation_id (r.attempt + 1))
            (process_log root r.observation_id (r.attempt + 1)) note w.db new_rid t.db reached done)
        (λ t same. rw same reached) (reprocess_run_lem root rid note w)

  -- Finishing a deletion at a reachable store leaves a reachable store, whether it returns or
  -- raises.
  pub finish_observation_deletion-Steps :
      (root : FilePath) (oid : ℕ) (w : World)
      → Steps n empty_db w.db
      → Steps n empty_db (finish_observation_deletion root oid w).1.db
  finish_observation_deletion-Steps root oid w reached =
      either_way (λ (t : World). Reached t.db)
        (λ _ t done. Deleted-Reached root oid w.db t reached done) (λ t kept. rw kept reached)
        (finish_observation_deletion-Deleted root oid w)

  -- `resolve --drop` at a reachable store leaves a reachable store, whether it returns or raises.
  pub force_drop_observation_data-Steps :
      (root : FilePath) (oid : ℕ) (reason : String) (w : World)
      → Steps n empty_db w.db
      → Steps n empty_db (force_drop_observation_data root oid reason w).1.db
  force_drop_observation_data-Steps root oid reason w reached =
      either_way (λ (t : World). Reached t.db)
        (λ _ t done. Dropped-Reached root oid reason w.db t reached done)
        (λ t kept. rw kept reached) (force_drop_observation_data_lem root oid reason w)
