-- ===== src/Store/Verdicts/Returns.antt =====
-- A verdict whose conditions hold goes through.
use ska_sdp_mini_control.Prelude.{
  ℕ, suc, ◌+◌, ◌≡◌, refl, String, false, true, some, ok, arith, any, any_of_mem, find-mem, tx,
  ◌>>=◌, ◌>>◌,
}
use ska_sdp_mini_control.Models.{
  FilePath, Observation, ProcessingRun, RunState, awaiting_qa, accepted, superseded, failed,
  discarded, stored, run_transitions,
}
use ska_sdp_mini_control.Models.Graph.{run_state_eq_iff}
use ska_sdp_mini_control.Store.Tables.{Db, run_row, obs_row, obs_has_id, add_event}
use ska_sdp_mini_control.Store.Observations.Outcomes.{ObsIds, count-obs_in_state}
use ska_sdp_mini_control.Store.Runs.{has_other_active_runs, is_attempt}
use ska_sdp_mini_control.Store.Runs.Outcomes.{RunIds, count-run_in_state}
use ska_sdp_mini_control.Store.Verdicts.{
  require_verdict_on, require_reprocessable, judge_run, begin_deletion, insert_replacement,
  not_awaiting_qa, is_reprocessable, accept_run_and_begin_deletion, reprocess_run_and_create,
  discard_failed_run_and_begin_deletion, not_failed,
}
use ska_sdp_mini_control.Store.Verdicts.Outcomes.{judged, deletion_begun, reprocessed}

module _ (rid : ℕ) (db : Db) (r : ProcessingRun) (o : Observation) (found : run_row rid db ≡ some r)
    (obs_found : obs_row r.observation_id db ≡ some o) (at : o.state ≡ stored)
    (free : has_other_active_runs r.observation_id rid db ≡ false) where
  require_verdict_on_returns :
      (s : RunState) (refusal : String)
      → r.state ≡ s
      → require_verdict_on rid s refusal db ≡ (ok r, db)
  unfolding require_verdict_on ◌>>=◌ ◌>>◌
  require_verdict_on_returns s refusal is_s = ground (arith, run_state_eq_iff r.state s)

  require_reprocessable_returns :
      is_reprocessable r.state ≡ true → require_reprocessable rid db ≡ (ok r, db)
  unfolding require_reprocessable run_transitions ◌>>=◌ ◌>>◌
  require_reprocessable_returns h = ground arith

judge_run_returns :
    (rid : ℕ) (from new : RunState) (verdict note reason : String) (db : Db) (r : ProcessingRun)
    → RunIds db
    → run_row rid db ≡ some r
    → r.state ≡ from
    → judge_run rid from new verdict note reason db
      ≡ (ok tt, judged rid from new verdict note reason db)
unfolding judge_run ◌>>=◌ ◌>>◌
judge_run_returns rid from new verdict note reason db r ids found at =
    ground (arith, count-run_in_state rid from db ids, run_state_eq_iff r.state from)

begin_deletion_returns :
    (oid : ℕ) (reason : String) (db : Db) (o : Observation)
    → ObsIds db
    → obs_row oid db ≡ some o
    → o.state ≡ stored
    → begin_deletion oid reason db ≡ (ok tt, deletion_begun oid reason db)
unfolding begin_deletion ◌>>=◌ ◌>>◌
begin_deletion_returns oid reason db o ids found at =
    ground (arith, count-obs_in_state oid stored db ids)

module _ (rid : ℕ) (db : Db) (r : ProcessingRun) (o : Observation) (obs_ids : ObsIds db)
    (run_ids : RunIds db) (found : run_row rid db ≡ some r)
    (obs_found : obs_row r.observation_id db ≡ some o) (at : o.state ≡ stored)
    (free : has_other_active_runs r.observation_id rid db ≡ false) where
  pub accept_returns :
      (note : String)
      → r.state ≡ awaiting_qa
      → accept_run_and_begin_deletion rid note db ≡ (
        ok r.observation_id,
        deletion_begun r.observation_id "accepted product permits raw deletion"
            (judged rid awaiting_qa accepted "accept" note "human QA accepted" db),
      )
  unfolding accept_run_and_begin_deletion tx ◌>>=◌ ◌>>◌ add_event
  accept_returns note is_awaiting = rw (
    require_verdict_on_returns rid db r o found obs_found at free awaiting_qa (not_awaiting_qa rid)
        is_awaiting,
    judge_run_returns rid awaiting_qa accepted "accept" note "human QA accepted" db r run_ids found
        is_awaiting,
    begin_deletion_returns r.observation_id "accepted product permits raw deletion"
        (judged rid awaiting_qa accepted "accept" note "human QA accepted" db) o obs_ids obs_found
        at,
  )

  -- Discarding a FAILED run returns its observation, and writes both moves with their events,
  -- where ids ascend, the observation is STORED and it has no other active run.
  pub discard_returns :
      (note : String)
      → r.state ≡ failed
      → discard_failed_run_and_begin_deletion rid note db ≡ (
        ok r.observation_id,
        deletion_begun r.observation_id "operator discard permits raw deletion" (
            judged rid failed discarded "discard" note
              "operator discarded raw data after exhausted processing failure" db),
      )
  unfolding discard_failed_run_and_begin_deletion tx ◌>>=◌ ◌>>◌ add_event
  discard_returns note is_failed = rw (
    require_verdict_on_returns rid db r o found obs_found at free failed (not_failed rid) is_failed,
    judge_run_returns rid failed discarded "discard" note
        "operator discarded raw data after exhausted processing failure" db r run_ids found
        is_failed,
    begin_deletion_returns r.observation_id "operator discard permits raw deletion"
        (judged rid failed discarded "discard" note
          "operator discarded raw data after exhausted processing failure" db)
        o obs_ids obs_found at,
  )

  pub reprocess_returns :
      (output_prefix log_path : FilePath) (note : String)
      → is_reprocessable r.state ≡ true
      → any
          (is_attempt r.observation_id (r.attempt + 1))
          (judged rid r.state superseded "reprocess" note "human requested reprocessing" db).runs
        ≡ false
      → reprocess_run_and_create rid output_prefix log_path note db
        ≡ (ok (suc db.run_seq), reprocessed rid r output_prefix log_path note db)
  unfolding reprocess_run_and_create insert_replacement tx ◌>>=◌ ◌>>◌ add_event
  reprocess_returns output_prefix log_path note fits untaken =
      let (mo, is_owner) =
        find-mem (obs_has_id r.observation_id) db.observations {x = o} obs_found in
      rw (
        require_reprocessable_returns rid db r o found obs_found at free fits,
        judge_run_returns rid r.state superseded "reprocess" note "human requested reprocessing" db
            r run_ids found refl,
        untaken,
        any_of_mem (obs_has_id r.observation_id) db.observations mo is_owner,
      )
