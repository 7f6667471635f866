-- ===== src/Protocol/Verdicts.antt =====
-- The operator verdicts keep the invariant.
use ska_sdp_mini_control.Prelude.{
  ℕ, suc, ◌+◌, ◌≤◌, ◌<◌, ◌≡◌, ◌≢◌, refl, ap, subst, true, false, Memᴰ, update, apply_if, mem-update,
  update-mem, arith, some, none, String, Result,
}
use ska_sdp_mini_control.Prelude.Ensures.{Ensures, returned, raised}
use ska_sdp_mini_control.Prelude.Keyed.{mem_unique}
use ska_sdp_mini_control.Models.{
  FilePath, ProcessingRun, RunState, stored, queued, awaiting_qa, failed, accepted, superseded,
  discarded,
}
use ska_sdp_mini_control.Models.Graph.{run_state_eq_iff, obs_state_eq_iff}
use ska_sdp_mini_control.Store.Tables.{
  Db, Event, observation, EntityState, EntityType, entity_eq, obs_state, run_state, run_in_state,
  run_has_id, run_row, obs_row, obs_in_state, obs_has_id, add_event,
}
use ska_sdp_mini_control.Store.Tables
use ska_sdp_mini_control.Store.Verdicts.{
  set_verdict, set_deleting, is_reprocessable, accept_run_and_begin_deletion,
  discard_failed_run_and_begin_deletion, reprocess_run_and_create,
}
use ska_sdp_mini_control.Store.Verdicts.Outcomes.{
  judged, deletion_begun, Accepted, Discarded, Reprocessed, accept_lem, discard_lem, reprocess_lem,
}
use ska_sdp_mini_control.Protocol.Invariant.{Inv, permits_deletion, Permit}
use ska_sdp_mini_control.Protocol.Rows.{RunUpdate}
use ska_sdp_mini_control.Protocol.Writes.{
  Inv-event, Inv-obs_written, Inv-run_written, Inv-run_inserted, run_mem,
}

module _ (n : ℕ) (db : Db) (inv : Inv n db) where
  -- A permit on record lets the deletion of a STORED observation begin.
  pub Inv-deletion_begun :
      (oid : ℕ) (reason : String) → Permit db.runs oid → Inv n (deletion_begun oid reason db)
  unfolding add_event
  Inv-deletion_begun oid reason permit =
      Inv-obs_written n _ (Inv-event n db inv observation oid _ _ reason refl)
        (obs_in_state oid stored) set_deleting
        (record {
          keeps_id = λ x. refl;
          keeps_stored = λ x t e. refl;
          permitted = λ x _ t e. subst (Permit db.runs) (ground arith) permit;
          dropped = λ x _ t e. cc;
          released = λ x t old a b. ground (arith, old, obs_state_eq_iff x.state stored);
        })

  judged_fits :
      (rid : ℕ) (from new : RunState) (verdict note : String)
      → from ≢ superseded
      → permits_deletion from ≡ false
      → RunUpdate (run_in_state rid from) (set_verdict new verdict note)
  judged_fits rid from new verdict note live unreleased = record {
    keeps_id = λ x. refl;
    keeps_owner = λ x. refl;
    keeps_attempt = λ x. refl;
    live = λ x t e. ground (arith, live, run_state_eq_iff x.state from);
    undecided = λ x t e. ground (arith, unreleased, run_state_eq_iff x.state from);
  }

  pub Inv-judged :
      (rid : ℕ) (from new : RunState) (verdict note reason : String) (r : ProcessingRun)
      → run_row rid db ≡ some r
      → r.state ≡ from
      → from ≢ superseded
      → permits_deletion from ≡ false
      → new ≢ queued
      → Inv n (judged rid from new verdict note reason db)
  Inv-judged rid from new verdict note reason r found at live unreleased decided =
      Inv-run_written n db inv rid from new (set_verdict new verdict note) reason r found at
        (judged_fits rid from new verdict note live unreleased) (λ x. refl)
        (λ e. absurd (decided e))

  -- The judged run is the permit for the deletion of its observation's raw data.
  pub Permit-judged :
      (rid : ℕ) (from new : RunState) (verdict note : String) (r : ProcessingRun)
      → run_row rid db ≡ some r
      → r.state ≡ from
      → permits_deletion new ≡ true
      → Permit
          (update (run_in_state rid from) (set_verdict new verdict note) db.runs)
          r.observation_id
  Permit-judged rid from new verdict note r found at permits =
      let hit : run_in_state rid from r ≡ true =
        ground (arith, run_state_eq_iff r.state from, (run_mem n db inv found).1) in
      (
        apply_if (run_in_state rid from) (set_verdict new verdict note) r,
        update-mem (run_in_state rid from) (set_verdict new verdict note) db.runs
            (run_mem n db inv found).0,
        rw hit refl,
        rw hit permits,
      )

pub Inv-accept :
    (n : ℕ) (db : Db) (rid : ℕ) (note : String)
    → Inv n db
    → Inv n (accept_run_and_begin_deletion rid note db).1
unfolding Accepted add_event
Inv-accept n db rid note inv = go _ (accept_lem rid note db)
  where
    go : (r : Result ℕ × Db) → Ensures (Accepted rid note db) (λ t. t ≡ db) r → Inv n r.1
    go _ (raised same) = rw same inv
    go _ (returned (r, checked, at, owner, same)) =
        rw (same, owner)
          (Inv-deletion_begun n _
            (Inv-judged n db inv rid awaiting_qa accepted "accept" note _ r checked.run_found at
              (λ e. cc) refl (λ e. cc))
            r.observation_id _
            (Permit-judged n db inv rid awaiting_qa accepted "accept" note r checked.run_found at
              refl))

pub Inv-discard :
    (n : ℕ) (db : Db) (rid : ℕ) (note : String)
    → Inv n db
    → Inv n (discard_failed_run_and_begin_deletion rid note db).1
unfolding Discarded add_event
Inv-discard n db rid note inv = go _ (discard_lem rid note db)
  where
    go : (r : Result ℕ × Db) → Ensures (Discarded rid note db) (λ t. t ≡ db) r → Inv n r.1
    go _ (raised same) = rw same inv
    go _ (returned (r, checked, at, owner, same)) =
        rw (same, owner)
          (Inv-deletion_begun n _
            (Inv-judged n db inv rid failed discarded "discard" note _ r checked.run_found at
              (λ e. cc) refl (λ e. cc))
            r.observation_id _
            (Permit-judged n db inv rid failed discarded "discard" note r checked.run_found at
              refl))

-- Once the run is superseded, so are all runs of its observation, by lower attempts than the next.
pub superseded_all :
    (n : ℕ) (db : Db) (inv : Inv n db) (rid : ℕ) (r : ProcessingRun) (note : String)
    → run_row rid db ≡ some r
    → is_reprocessable r.state ≡ true
    → (x : ProcessingRun)
    → Memᴰ x (update (run_in_state rid r.state) (set_verdict superseded "reprocess" note) db.runs)
    → x.observation_id ≡ r.observation_id
    → (x.state ≡ superseded) × (x.attempt < r.attempt + 1)
superseded_all n db inv rid r note found at x m same =
    let (y, my, e) =
      mem-update (run_in_state rid r.state) (set_verdict superseded "reprocess" note) db.runs m in
    let (mr, is_rid) = run_mem n db inv found in
    ground (
      arith,
      inv.chain y r my mr,
      inv.chain r y mr my,
      is_rid,
      λ (q : y.id ≡ r.id).
          mem_unique (λ (z : ProcessingRun). z.id) 0 db.runs db.run_seq inv.run_ids my mr q,
      run_state_eq_iff y.state r.state,
    )

pub Inv-reprocess :
    (n : ℕ) (db : Db) (rid : ℕ) (output_prefix log_path : FilePath) (note : String)
    → 1 ≤ n
    → Inv n db
    → Inv n (reprocess_run_and_create rid output_prefix log_path note db).1
unfolding Reprocessed add_event
Inv-reprocess n db rid output_prefix log_path note room inv =
    go _ (reprocess_lem rid output_prefix log_path note db)
  where
    go :
        (r : Result ℕ × Db)
        → Ensures (Reprocessed rid output_prefix log_path note db) (λ t. t ≡ db) r
        → Inv n r.1
    go _ (raised same) = rw same inv
    go _ (returned (r, checked, at, new_id, same)) =
        let old =
          Inv-judged n db inv rid r.state superseded "reprocess" note "human requested reprocessing"
            r checked.run_found refl (λ e. ground (arith, ap is_reprocessable e)) (ground arith)
            (λ e. cc) in
        let (o, mo, owner, st) = inv.refs r (run_mem n db inv checked.run_found).0 in
        rw same (
          Inv-event n _
            (Inv-run_inserted n _ old _ refl refl room (o, mo, owner, st)
              (superseded_all n db inv rid r note checked.run_found at))
            Tables.run (suc db.run_seq) none (some (run_state queued)) "created by reprocess" refl)
