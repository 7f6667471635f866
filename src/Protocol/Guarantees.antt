-- ===== src/Protocol/Guarantees.antt =====
-- What every store that the controller and its operators can reach has in common.
use ska_sdp_mini_control.Prelude.{
  ℕ, suc, ◌+◌, ◌≤◌, ◌≡◌, ◌≢◌, ◌⊎◌, inl, inr, refl, arith, Bool, true, false, not, some, ok, String,
  Memᴰ, any, any-mem, ◌&&◌, Bool-cases, count, ◌==◌, ap, List,
}
use ska_sdp_mini_control.Prelude.Keyed.{mem_unique, count_unique}
use ska_sdp_mini_control.Models.{
  FilePath, Observation, ProcessingRun, planned, observing, superseded, stored, deleting, deleted,
  awaiting_qa, accepted,
}
use ska_sdp_mini_control.Store.Tables.{
  Db, empty_db, is_active, add_event, of_observation, run_row, obs_row,
}
use ska_sdp_mini_control.Store.Runs.{has_active_runs, has_other_active_runs, is_attempt}
use ska_sdp_mini_control.Store.Retries.{run_execution_attempts}
use ska_sdp_mini_control.Store.Verdicts.{
  is_reprocessable, accept_run_and_begin_deletion, reprocess_run_and_create,
}
use ska_sdp_mini_control.Store.Verdicts.Outcomes.{judged, deletion_begun, reprocessed}
use ska_sdp_mini_control.Store.Verdicts.Returns.{accept_returns, reprocess_returns}
use ska_sdp_mini_control.Protocol.Verdicts.{superseded_all}
use ska_sdp_mini_control.Protocol.Invariant.{Inv, Permit, Drop}
use ska_sdp_mini_control.Protocol.Steps.{Steps, Steps-Inv}
use ska_sdp_mini_control.Protocol.Writes.{run_mem}

pub empty_db-Inv : (n : ℕ) → Inv n empty_db
empty_db-Inv n = record {
  obs_ids = omega arith;
  run_ids = omega arith;
  refs = λ r m. elim m [ ];
  chain = λ a b m. elim m [ ];
  deletions = λ o m. elim m [ ];
  reservations = λ o m. elim m [ ];
  budget = λ r m. elim m [ ];
  fresh = λ rid lt. unfold count in refl;
}

-- Only one run of an observation is not superseded.
pub unsuperseded_unique :
    (n : ℕ) (db : Db) (inv : Inv n db) (a b : ProcessingRun)
    → Memᴰ a db.runs
    → Memᴰ b db.runs
    → a.observation_id ≡ b.observation_id
    → a.state ≢ superseded
    → b.state ≢ superseded
    → a ≡ b
unsuperseded_unique n db inv a b ma mb same la lb =
    mem_unique (λ (r : ProcessingRun). r.id) 0 db.runs db.run_seq inv.run_ids ma mb
      (ground (arith, inv.chain a b ma mb same, inv.chain b a mb ma))

module _ (n : ℕ) (db : Db) (room : 1 ≤ n) (reached : Steps n empty_db db) where
  -- The invariant of the reached store.
  inv : Inv n db
  inv = Steps-Inv room reached (empty_db-Inv n)

  -- In every reachable store an observation that is DELETING has an accepted or discarded run.
  pub deleting_is_authorised :
      (o : Observation) → Memᴰ o db.observations → o.state ≡ deleting → Permit db.runs o.id
  deleting_is_authorised o m at = (inv.deletions o m).0 at

  -- In every reachable store an observation that is DELETED has an accepted or discarded run, or
  -- the log has the event by which an operator dropped its data when it was INCONSISTENT.
  pub deleted_is_authorised :
      (o : Observation)
      → Memᴰ o db.observations
      → o.state ≡ deleted
      → Permit db.runs o.id ⊎ Drop db.events o.id
  deleted_is_authorised o m at = (inv.deletions o m).1 at

  -- In every reachable store no run has entered RUNNING more often than max_processing_attempts.
  pub executions-le-max_attempts :
      (r : ProcessingRun) → Memᴰ r db.runs → run_execution_attempts r.id db ≤ n
  unfolding run_execution_attempts
  executions-le-max_attempts r m = omega (arith, inv.budget r m)

  -- Two active runs of one observation are one row.
  active_run_unique :
      (a b : ProcessingRun)
      → Memᴰ a db.runs
      → Memᴰ b db.runs
      → a.observation_id ≡ b.observation_id
      → is_active a ≡ true
      → is_active b ≡ true
      → a ≡ b
  active_run_unique a b ma mb same la lb =
      unsuperseded_unique n db inv a b ma mb same (λ e. ground arith) (λ e. ground arith)

  -- In every reachable store an observation has at most one active run.
  pub active_runs-le-1 : (oid : ℕ) → count (λ r. of_observation oid r && is_active r) db.runs ≤ 1
  active_runs-le-1 oid =
      count_unique (λ (r : ProcessingRun). r.id) 0 (λ r. of_observation oid r && is_active r)
        db.runs db.run_seq inv.run_ids
        λ a b ma mb ta tb. active_run_unique a b ma mb (ground arith) (ground arith) (ground arith)

  -- In every reachable store an observation that is DELETING has no active run.
  pub deleting_has_no_active_run :
      (o : Observation)
      → Memᴰ o db.observations
      → o.state ≡ deleting
      → has_active_runs o.id db ≡ false
  unfolding has_active_runs
  deleting_has_no_active_run o m at =
      let (p, mp, owner, permits) = (inv.deletions o m).0 at in
      elim (Bool-cases (any (λ r. of_observation o.id r && is_active r) db.runs)) [
        | inl busy ↦
            let (r, mr, t) = any-mem _ db.runs busy in
            let one : r ≡ p =
              unsuperseded_unique n db inv r p mr mp (ground arith) (λ e. ground arith)
                (λ e. ground arith) in
            absurd (ground arith)
        | inr idle ↦ idle
      ]

  -- In every reachable store only a PLANNED or OBSERVING observation holds a reservation.
  pub reservation_released :
      (o : Observation)
      → Memᴰ o db.observations
      → (o.state ≡ planned) ⊎ (o.state ≡ observing) ⊎ (o.reserved_bytes ≡ 0)
  reservation_released o m = ground (arith, inv.reservations o m)

  -- In every reachable store a run that is not superseded has no other active run beside it.
  alone :
      (rid : ℕ) (r : ProcessingRun)
      → run_row rid db ≡ some r
      → r.state ≢ superseded
      → has_other_active_runs r.observation_id rid db ≡ false
  unfolding has_other_active_runs
  alone rid r found live =
      let (mr, is_rid) = run_mem n db inv found in
      elim (Bool-cases (
        any (λ x. of_observation r.observation_id x && (not (x.id == rid) && is_active x))
          db.runs)) [
            | inl busy ↦
                let (x, mx, t) = any-mem _ db.runs busy in
                let one : x ≡ r =
                  unsuperseded_unique n db inv x r mx mr (ground arith) (λ e. ground arith) live in
                absurd (ground arith)
            | inr idle ↦ idle
          ]

  -- In every reachable store a run that awaits QA, of a STORED observation, can be accepted: the
  -- transaction returns, the run is ACCEPTED and the observation DELETING.
  pub accept_goes_through :
      (rid : ℕ) (note : String) (r : ProcessingRun) (o : Observation)
      → run_row rid db ≡ some r
      → r.state ≡ awaiting_qa
      → obs_row r.observation_id db ≡ some o
      → o.state ≡ stored
      → accept_run_and_begin_deletion rid note db ≡ (
        ok r.observation_id,
        deletion_begun r.observation_id "accepted product permits raw deletion"
            (judged rid awaiting_qa accepted "accept" note "human QA accepted" db),
      )
  accept_goes_through rid note r o found awaiting obs_found at =
      accept_returns rid db r o inv.obs_ids inv.run_ids found obs_found at
        (alone rid r found (λ e. cc)) note awaiting

  -- In every reachable store a run that awaits QA or has failed, of a STORED observation, can be
  -- reprocessed: the number of the next attempt is free, so no constraint of the table is broken.
  pub reprocess_goes_through :
      (rid : ℕ) (output_prefix log_path : FilePath) (note : String) (r : ProcessingRun)
      (o : Observation)
      → run_row rid db ≡ some r
      → is_reprocessable r.state ≡ true
      → obs_row r.observation_id db ≡ some o
      → o.state ≡ stored
      → reprocess_run_and_create rid output_prefix log_path note db
        ≡ (ok (suc db.run_seq), reprocessed rid r output_prefix log_path note db)
  unfolding add_event
  reprocess_goes_through rid output_prefix log_path note r o found fits obs_found at =
      reprocess_returns rid db r o inv.obs_ids inv.run_ids found obs_found at
        (alone rid r found (λ e. ground (arith, ap is_reprocessable e))) output_prefix log_path note
        fits (none_taken (any (is_attempt r.observation_id (r.attempt + 1)) new_runs) refl)
    where
      new_runs : List ProcessingRun
      new_runs =
          (judged rid r.state superseded "reprocess" note "human requested reprocessing" db).runs

      none_taken :
          (b : Bool) → any (is_attempt r.observation_id (r.attempt + 1)) new_runs ≡ b → b ≡ false
      none_taken false e = refl
      none_taken true e =
          let (x, mx, t) = any-mem (is_attempt r.observation_id (r.attempt + 1)) new_runs e in
          absurd (ground (arith, superseded_all n db inv rid r note found fits x mx))
