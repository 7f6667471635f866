-- ===== src/Protocol/Ticking/Retry.antt =====
-- The automatic retries of a tick.
use ska_sdp_mini_control.Prelude.{
  ℕ, ◌≤◌, ◌<◌, ◌≡◌, ◌∙◌, ◌⊎◌, inl, inr, refl, arith, false, Bool-cases, String, Exc, Result, ok,
  err, Action, List, [], ◌∷◌, ◌++◌, map, select, count, count-append_one, ◌>>=◌, ◌>>◌, tx,
  transition_error, suppress_transition_error, try_except, handle, hide_transition_error, ◌==◌,
}
use ska_sdp_mini_control.Prelude.Ensures.{
  Ensures, returned, bind, bind_ok, bind_then, weaken, weaken_both, both, try_rule, for_each_rule,
  either_way, in_any_case,
}
use ska_sdp_mini_control.Models.{
  ProcessingRun, RunState, queued, failed, run_state_in, run_transitions,
}
use ska_sdp_mini_control.Files.{exists, parent}
use ska_sdp_mini_control.Store.Tables.{Db, Event, add_event, insert_event, update_runs, run_row}
use ska_sdp_mini_control.Store.Runs.{RunChange, transition_run}
use ska_sdp_mini_control.Store.Runs.Outcomes.{transition_run_lem, run_is}
use ska_sdp_mini_control.Store.Retries.{
  run_execution_attempts, is_execution, mark_exhausted_failed_runs, log_exhausted,
  update_returning_ids, mark_run_retry_exhausted, list_retryable_failed_runs, is_retryable,
  is_unmarked_failure, is_newly_exhausted,
}
use ska_sdp_mini_control.Storage.{World, on_db}
use ska_sdp_mini_control.Storage.Rules.{on_db_rule, on_db_returns, on_files_returns}
use ska_sdp_mini_control.Scheduler.Tick.{
  requeued, remove_products, cleanup, requeue, retry_run, retry_failed_runs,
}
use ska_sdp_mini_control.Protocol.Steps.{Steps-Inv, next, retry, mark_exhausted, mark_blocked}
use ska_sdp_mini_control.Protocol.Guarantees.{empty_db-Inv}
use ska_sdp_mini_control.Protocol.Kept.{InReach, Step-InReach}
use ska_sdp_mini_control.Protocol.Processing.Moves.{transition_run-Ensures}

-- A statement that returns, or raises a TransitionError.
abbrev pub NoOther : Result Unit → Type 0
NoOther r = (r ≡ ok tt) ⊎ ((message : String) × (r ≡ err (transition_error message)))

pub suppressed :
    {Q E : World → Type 0} (m : Action World Unit) (w : World)
    → NoOther (m w).0
    → Ensures (λ _. Q) Q (m w)
    → Ensures (λ _. Q) E (suppress_transition_error m w)
unfolding suppress_transition_error try_except
suppressed {Q} m w kind done = go (m w).0 (m w).1 kind (either_way Q (λ _ _ q. q) (λ _ q. q) done)
  where
    go :
        {E : World → Type 0} (r : Result Unit) (t : World)
        → NoOther r
        → Q t
        → Ensures (λ _. Q) E (handle r hide_transition_error t)
    go r t (inl e) q = rw e (returned q)
    go r t (inr (message, e)) q = rw e (returned q)

module _ (n : ℕ) (room : 1 ≤ n) where
  pub transition_run-NoOther :
      (rid : ℕ) (from to : RunState) (c : RunChange) (w : World)
      → InReach n w
      → NoOther (on_db (transition_run rid from to c) w).0
  unfolding on_db
  transition_run-NoOther rid from to c w reached =
      let inv = Steps-Inv room reached (empty_db-Inv n) in
      rw (transition_run_lem rid from to c w.db inv.run_ids)
        (elim (Bool-cases (run_state_in to (run_transitions from))) [
          | inl legal ↦ elim (Bool-cases (run_is (run_row rid w.db) from)) [
            | inl holds ↦ rw (legal, holds) (inl refl)
            | inr other ↦ rw (legal, other) (inr (_, refl))
          ]
          | inr illegal ↦ rw illegal (inr (_, refl))
        ])

-- The executions in the log are the same.
abbrev pub SameAttempts : Db → Db → Type 0
SameAttempts db t = (rid : ℕ) → run_execution_attempts rid t ≡ run_execution_attempts rid db

one_more :
    (k : ℕ) (e : Event) (es : List Event)
    → is_execution k e ≡ false
    → count (is_execution k) (es ++ e ∷ []) ≡ count (is_execution k) es
unfolding count
one_more k e es other = ground (arith, count-append_one (is_execution k) es e)

requeue-SameAttempts :
    (rid : ℕ) (c : RunChange) (db : Db)
    → Ensures
        (λ _ t. SameAttempts db t)
        (λ t. SameAttempts db t)
        (transition_run rid failed queued c db)
unfolding run_execution_attempts add_event
requeue-SameAttempts rid c db =
    weaken_both (λ _ t same k. rw same (one_more k _ db.events (ground arith)))
      (λ t same k. rw same refl) (transition_run-Ensures rid failed queued c db)

mark_blocked-SameAttempts :
    (rid : ℕ) (reason : String) (db : Db)
    → ((mark_run_retry_exhausted rid reason db).0 ≡ ok tt)
      × SameAttempts db (mark_run_retry_exhausted rid reason db).1
unfolding run_execution_attempts mark_run_retry_exhausted update_runs insert_event add_event tx
    ◌>>=◌ ◌>>◌
mark_blocked-SameAttempts rid reason db =
    elim (Bool-cases (count (is_unmarked_failure rid) db.runs == 0)) [
      | inl nothing ↦ rw nothing (refl, λ k. refl)
      | inr marked ↦ rw marked (refl, λ k. one_more k _ db.events (ground arith))
    ]

pub log_exhausted-returns :
    (max_attempts : ℕ) (rids : List ℕ) (db : Db) → (log_exhausted max_attempts rids db).0 ≡ ok tt
unfolding log_exhausted insert_event ◌>>◌ ◌>>=◌
log_exhausted-returns max_attempts [] db = refl
log_exhausted-returns max_attempts (rid ∷ rids) db = log_exhausted-returns max_attempts rids _

mark_exhausted-returns :
    (max_attempts : ℕ) (db : Db)
    → (ids : List ℕ) × ((mark_exhausted_failed_runs max_attempts db).0 ≡ ok ids)
unfolding mark_exhausted_failed_runs update_returning_ids tx ◌>>=◌ ◌>>◌
mark_exhausted-returns max_attempts db = (
  map (λ r. r.id) (select (is_newly_exhausted max_attempts db) db.runs),
  rw log_exhausted-returns refl,
)

module _ (n : ℕ) (room : 1 ≤ n) (repr : Exc → String) where
  -- The store is reachable, and its executions are those of `db`.
  abbrev Kept : Db → World → Type 0
  Kept db t = InReach n t × SameAttempts db t.db

  remove_products-Kept :
      (db : Db) (r : ProcessingRun) (w : World)
      → Kept db w
      → Ensures (λ _ t. Kept db t) (Kept db) (remove_products r w)
  unfolding remove_products
  remove_products-Kept db r w kept =
      bind_ok _ _ w refl (elim (Bool-cases (exists (parent r.output_prefix) w.files)) [
        | inl there ↦ rw there (
            on_files_returns (λ _ t. Kept db t) (Kept db) _ w
              (in_any_case _ (λ _ _. kept) (λ _. kept)))
        | inr gone ↦ rw gone (returned kept)
      ])

  cleanup-Kept :
      {E : World → Type 0} (db : Db) (r : ProcessingRun) (w : World)
      → Kept db w
      → Ensures (λ _ t. Kept db t) E (cleanup repr r w)
  unfolding cleanup
  cleanup-Kept {E} db r w kept =
      try_rule (Kept db) _ _ w
        (bind_then (Kept db) _ _ w (remove_products-Kept db r w kept) λ t h. returned h)
        λ exc t h. bind_then (Kept db) _ _ t (marked _ t h) λ u k. returned k
    where
      marked :
          (reason : String) (t : World)
          → Kept db t
          → Ensures (λ _ u. Kept db u) E (on_db (mark_run_retry_exhausted r.id reason) t)
      marked reason t h =
          let (fine, same) = mark_blocked-SameAttempts r.id reason t.db in
          on_db_returns (λ _ u. Kept db u) E _ t tt fine
            (next h.0 (mark_blocked t.db r.id reason), λ k. same k ∙ h.1 k)

  requeue-Kept :
      {E : World → Type 0} (db : Db) (r : ProcessingRun) (executions : ℕ) (w : World)
      → run_execution_attempts r.id db < n
      → Kept db w
      → Ensures (λ _ t. Kept db t) E (requeue n r executions w)
  unfolding requeue
  requeue-Kept db r executions w left kept =
      let c = requeued executions n in
      let left' : run_execution_attempts r.id w.db < n = rw kept.1 left in
      suppressed (on_db (transition_run r.id failed queued c)) w
        (transition_run-NoOther n room r.id failed queued c w kept.0)
        (both (on_db (transition_run r.id failed queued c) w)
          (Step-InReach n (transition_run r.id failed queued c) w (retry w.db r.id c left') kept.0)
          (on_db_rule (λ _ t. SameAttempts db t.db) (λ t. SameAttempts db t.db) _ w
            (weaken_both (λ _ t same k. same k ∙ kept.1 k) (λ t same k. same k ∙ kept.1 k)
              (requeue-SameAttempts r.id c w.db))))

  abbrev HaveLeft : Db → List (ProcessingRun × ℕ) → Type 0
  HaveLeft db [] = Unit
  HaveLeft db (row ∷ rows) = (run_execution_attempts row.0.id db < n) × HaveLeft db rows

  retryable-HaveLeft :
      (db : Db) (rows : List ProcessingRun)
      → HaveLeft db
          (map (λ r. (r, run_execution_attempts r.id db)) (select (is_retryable n db) rows))
  unfolding select
  retryable-HaveLeft db [] = tt
  retryable-HaveLeft db (r ∷ rows) = elim (Bool-cases (is_retryable n db r)) [
    | inl due ↦ rw due (ground arith, retryable-HaveLeft db rows)
    | inr other ↦ rw other (retryable-HaveLeft db rows)
  ]

  -- The retries never raise, and every run that they put back has executions left.
  pub retry_failed_runs-InReach :
      {E : World → Type 0} (w : World)
      → InReach n w
      → Ensures (λ _ t. InReach n t) E (retry_failed_runs repr n w)
  unfolding retry_failed_runs list_retryable_failed_runs retry_run
  retry_failed_runs-InReach {E} w reached =
      let (ids, fine) = mark_exhausted-returns n w.db in
      bind_then (InReach n) _ _ w
        (on_db_returns (λ _ t. InReach n t) E _ w ids fine (next reached (mark_exhausted w.db n)))
        λ t there. bind_ok _ _ t refl (
          weaken (λ _ u h. h.0.0)
            (for_each_rule (λ rows u. Kept t.db u × HaveLeft t.db rows) _
              (λ row rows s h.
                bind (λ _ u. Kept t.db u) _ _ s (cleanup-Kept t.db row.0 s h.0)
                  λ cleaned u k.
                    weaken (λ _ v kept. (kept, h.1.1))
                      (elim (Bool-cases cleaned) [
                        | inl clean ↦ rw clean (requeue-Kept t.db row.0 row.1 u h.1.0 k)
                        | inr blocked ↦ rw blocked (returned k)
                      ]))
              _ t ((there, λ k. refl), retryable-HaveLeft t.db t.db.runs)))
