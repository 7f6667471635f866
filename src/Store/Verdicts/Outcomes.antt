-- ===== src/Store/Verdicts/Outcomes.antt =====
-- What the three verdicts have checked when they return, what they write, and that a verdict
-- which raises writes nothing.
use ska_sdp_mini_control.Prelude.{
  ℕ, suc, ◌+◌, ◌≡◌, refl, String, false, true, some, none, arith, update, not,
}
use ska_sdp_mini_control.Models.{
  FilePath, Observation, ProcessingRun, RunState, awaiting_qa, accepted, failed, discarded, stored,
  deleting, superseded, queued, run_state_eq, obs_state_eq,
}
use ska_sdp_mini_control.Prelude.Ensures.{
  Ensures, returned, bind_ok, then_ok, bind_read, then_read, then_writes, weaken, or_raise-bind,
  raise_if-then, bind, or_raise_last, raise_if_last, tx_rule,
}
use ska_sdp_mini_control.Models.Graph.{run_state_eq_iff, obs_state_eq_iff}
use ska_sdp_mini_control.Store.Tables
use ska_sdp_mini_control.Store.Tables.{
  Db, observation, obs_state, obs_has_id, run_state, obs_in_state, run_in_state, obs_row, run_row,
  add_event,
}
use ska_sdp_mini_control.Store.Runs.{has_other_active_runs, new_run, append_run}
use ska_sdp_mini_control.Store.Verdicts.{
  require_run, require_free_observation, require_verdict_on, require_reprocessable, judge_run,
  begin_deletion, set_verdict, set_deleting, is_reprocessable, insert_replacement,
  accept_run_and_begin_deletion, discard_failed_run_and_begin_deletion, reprocess_run_and_create,
}

abbrev pub judged : ℕ → RunState → RunState → String → String → String → Db → Db
judged rid from new verdict note reason db =
    add_event Tables.run rid (some (run_state from)) (some (run_state new)) reason
      (record db { runs = update (run_in_state rid from) (set_verdict new verdict note) db.runs })

abbrev pub deletion_begun : ℕ → String → Db → Db
deletion_begun oid reason db =
    add_event observation oid (some (obs_state stored)) (some (obs_state deleting)) reason
      (record db { observations = update (obs_in_state oid stored) set_deleting db.observations })

-- What a verdict on the run `r` has checked: the observation is STORED, and it has no other
-- active run.
pub record Checked (rid : ℕ) (r : ProcessingRun) (db : Db) : Type 0 where
  pub obs : Observation
  pub run_found : run_row rid db ≡ some r
  pub obs_found : obs_row r.observation_id db ≡ some obs
  pub obs_stored : obs.state ≡ stored
  pub no_other : has_other_active_runs r.observation_id rid db ≡ false

state_of : (r : ProcessingRun) (s : RunState) → not (run_state_eq r.state s) ≡ false → r.state ≡ s
state_of r s h = ground (arith, run_state_eq_iff r.state s)

-- What `require_free_observation` has found.
record IsFree (oid rid : ℕ) (db : Db) : Type 0 where
  obs : Observation
  found : obs_row oid db ≡ some obs
  at : obs.state ≡ stored
  alone : has_other_active_runs oid rid db ≡ false

abbrev Anything : Db → Type 0
Anything db = Unit

require_free_observation_lem :
    (oid rid : ℕ) (db : Db)
    → Ensures (λ _ t. (t ≡ db) × IsFree oid rid db) Anything (require_free_observation oid rid db)
unfolding require_free_observation
require_free_observation_lem oid rid db = bind_ok _ _ db refl (
    or_raise-bind (obs_row oid db) _ _ db tt λ o found.
      raise_if-then (not (obs_state_eq o.state stored)) _ _ db tt λ at. bind_ok _ _ db refl (
        raise_if_last (has_other_active_runs oid rid db) _ db tt λ free. (
          refl,
          record {
            obs = o;
            found = found;
            at = ground (arith, obs_state_eq_iff o.state stored);
            alone = free;
          },
        )))

Checked-of :
    (rid : ℕ) (r : ProcessingRun) (db : Db)
    → run_row rid db ≡ some r
    → IsFree r.observation_id rid db
    → Checked rid r db
Checked-of rid r db found free = record {
  obs = free.obs;
  run_found = found;
  obs_found = free.found;
  obs_stored = free.at;
  no_other = free.alone;
}

require_verdict_on_lem :
    (rid : ℕ) (s : RunState) (refusal : String) (db : Db)
    → Ensures
        (λ r t. (t ≡ db) × (Checked rid r db × (r.state ≡ s)))
        Anything
        (require_verdict_on rid s refusal db)
unfolding require_verdict_on require_run
require_verdict_on_lem rid s refusal db =
    bind_read (λ r. run_row rid db ≡ some r) _ _ db
      (bind_ok _ _ db refl (or_raise_last (run_row rid db) _ db tt λ r found. (refl, found)))
      λ r found. raise_if-then (not (run_state_eq r.state s)) _ _ db tt λ at.
        then_read (λ _. IsFree r.observation_id rid db) _ _ db
          (require_free_observation_lem r.observation_id rid db)
          λ _ free. returned (refl, (Checked-of rid r db found free, state_of r s at))

require_reprocessable_lem :
    (rid : ℕ) (db : Db)
    → Ensures
        (λ r t. (t ≡ db) × (Checked rid r db × (is_reprocessable r.state ≡ true)))
        Anything
        (require_reprocessable rid db)
unfolding require_reprocessable require_run
require_reprocessable_lem rid db =
    bind_read (λ r. run_row rid db ≡ some r) _ _ db
      (bind_ok _ _ db refl (or_raise_last (run_row rid db) _ db tt λ r found. (refl, found)))
      λ r found. raise_if-then (not (is_reprocessable r.state)) _ _ db tt λ at.
        raise_if-then _ _ _ db tt λ legal.
          then_read (λ _. IsFree r.observation_id rid db) _ _ db
            (require_free_observation_lem r.observation_id rid db)
            λ _ free. returned (refl, (Checked-of rid r db found free, ground arith))

judge_run_lem :
    (rid : ℕ) (from new : RunState) (verdict note reason : String) (db : Db)
    → Ensures
        (λ _ t. t ≡ judged rid from new verdict note reason db)
        Anything
        (judge_run rid from new verdict note reason db)
unfolding judge_run
judge_run_lem rid from new verdict note reason db =
    bind_ok _ _ db refl (raise_if-then _ _ _ _ tt λ one. returned refl)

begin_deletion_lem :
    (oid : ℕ) (reason : String) (db : Db)
    → Ensures (λ _ t. t ≡ deletion_begun oid reason db) Anything (begin_deletion oid reason db)
unfolding begin_deletion
begin_deletion_lem oid reason db =
    bind_ok _ _ db refl (raise_if-then _ _ _ _ tt λ one. returned refl)

unfoldable pub Accepted : ℕ → String → Db → ℕ → Db → Type 0
Accepted rid note db oid db' =
    (r : ProcessingRun) × Checked rid r db
    × (r.state ≡ awaiting_qa)
    × (oid ≡ r.observation_id)
    × (db'
        ≡ deletion_begun oid "accepted product permits raw deletion"
            (judged rid awaiting_qa accepted "accept" note "human QA accepted" db))

-- Accepting raises and leaves the store as it was, or it has found the run awaiting QA, its
-- observation STORED and no other active run, and has written both moves with their events.
pub accept_lem :
    (rid : ℕ) (note : String) (db : Db)
    → Ensures (Accepted rid note db) (λ db'. db' ≡ db) (accept_run_and_begin_deletion rid note db)
unfolding accept_run_and_begin_deletion Accepted
accept_lem rid note db = tx_rule (Accepted rid note db) _ db (
    bind_read (λ r. Checked rid r db × (r.state ≡ awaiting_qa)) _ _ db
      (require_verdict_on_lem rid awaiting_qa _ db)
      λ r (checked, at).
        then_writes _ _ db
          (judge_run_lem rid awaiting_qa accepted "accept" note "human QA accepted" db)
          (then_writes _ _ _ (begin_deletion_lem r.observation_id _ _)
            (returned (r, checked, at, refl, refl))))

unfoldable pub Discarded : ℕ → String → Db → ℕ → Db → Type 0
Discarded rid note db oid db' =
    (r : ProcessingRun) × Checked rid r db
    × (r.state ≡ failed)
    × (oid ≡ r.observation_id)
    × (db'
        ≡ deletion_begun oid "operator discard permits raw deletion" (
            judged rid failed discarded "discard" note
              "operator discarded raw data after exhausted processing failure" db))

-- Discarding raises and leaves the store as it was, or it has found the run FAILED, its
-- observation STORED and no other active run, and has written both moves with their events.
pub discard_lem :
    (rid : ℕ) (note : String) (db : Db)
    → Ensures
        (Discarded rid note db)
        (λ db'. db' ≡ db)
        (discard_failed_run_and_begin_deletion rid note db)
unfolding discard_failed_run_and_begin_deletion Discarded
discard_lem rid note db = tx_rule (Discarded rid note db) _ db (
    bind_read (λ r. Checked rid r db × (r.state ≡ failed)) _ _ db
      (require_verdict_on_lem rid failed _ db)
      λ r (checked, at).
        then_writes _ _ db (judge_run_lem rid failed discarded "discard" note _ db) (
          then_writes _ _ _ (begin_deletion_lem r.observation_id _ _)
            (returned (r, checked, at, refl, refl))))

-- The store after a reprocess: the run is superseded, and the next attempt is queued.
abbrev pub reprocessed : ℕ → ProcessingRun → FilePath → FilePath → String → Db → Db
reprocessed rid r output_prefix log_path note db =
    let old = judged rid r.state superseded "reprocess" note "human requested reprocessing" db in
    add_event Tables.run (suc db.run_seq) none (some (run_state queued)) "created by reprocess" (
      append_run (new_run (suc db.run_seq) r.observation_id (r.attempt + 1) output_prefix log_path)
        old)

unfoldable pub Reprocessed : ℕ → FilePath → FilePath → String → Db → ℕ → Db → Type 0
Reprocessed rid output_prefix log_path note db new_rid db' =
    (r : ProcessingRun) × Checked rid r db
    × (is_reprocessable r.state ≡ true)
    × (new_rid ≡ suc db.run_seq)
    × (db' ≡ reprocessed rid r output_prefix log_path note db)

insert_replacement_lem :
    (r : ProcessingRun) (output_prefix log_path : FilePath) (db : Db)
    → Ensures
        (λ new_rid t.
          (new_rid ≡ suc db.run_seq)
          × (t
              ≡ add_event Tables.run
                  (suc db.run_seq)
                  none
                  (some (run_state queued))
                  "created by reprocess"
                  (append_run
                    (new_run
                      (suc db.run_seq)
                      r.observation_id
                      (r.attempt + 1)
                      output_prefix
                      log_path)
                    db)))
        Anything
        (insert_replacement r output_prefix log_path db)
unfolding insert_replacement
insert_replacement_lem r output_prefix log_path db =
    bind
      (λ new_rid t.
        (new_rid ≡ suc db.run_seq)
        × (t
            ≡ append_run
                (new_run (suc db.run_seq) r.observation_id (r.attempt + 1) output_prefix log_path)
                db))
      _ _ db
      (bind_ok _ _ db refl (
        raise_if-then _ _ _ db tt λ untaken.
          bind_ok _ _ db refl (raise_if-then _ _ _ db tt λ known. returned (refl, refl))))
      λ new_rid t (e, same). rw (e, same) (then_ok _ _ _ refl (returned (refl, refl)))

-- Reprocessing raises and leaves the store as it was, or it has found the run awaiting QA or
-- FAILED, its observation STORED and no other active run, and has superseded the run and queued
-- its next attempt.
pub reprocess_lem :
    (rid : ℕ) (output_prefix log_path : FilePath) (note : String) (db : Db)
    → Ensures
        (Reprocessed rid output_prefix log_path note db)
        (λ db'. db' ≡ db)
        (reprocess_run_and_create rid output_prefix log_path note db)
unfolding reprocess_run_and_create Reprocessed add_event
reprocess_lem rid output_prefix log_path note db =
    tx_rule (Reprocessed rid output_prefix log_path note db) _ db (
      bind_read (λ r. Checked rid r db × (is_reprocessable r.state ≡ true)) _ _ db
        (require_reprocessable_lem rid db)
        λ r (checked, at).
          then_writes _ _ db (judge_run_lem rid r.state superseded "reprocess" note _ db) (
            weaken (λ new_rid t (e, same). (r, checked, at, e, same))
              (insert_replacement_lem r output_prefix log_path _)))
