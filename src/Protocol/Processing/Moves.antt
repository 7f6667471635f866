-- ===== src/Protocol/Processing/Moves.antt =====
-- The moves that end a run.
use ska_sdp_mini_control.Prelude.{
  ℕ, ◌≤◌, ◌≡◌, ◌≢◌, ◌⊎◌, inl, refl, ap, true, false, some, String, Result, arith, tx,
  suppress_transition_error,
}
use ska_sdp_mini_control.Prelude.Int.{ℤ}
use ska_sdp_mini_control.Prelude.Ensures.{
  Ensures, returned, bind_ok, weaken_both, both, suppress_transition_rule, returned_ok,
  raise_if-then, tx_rule,
}
use ska_sdp_mini_control.Models.{RunState, queued, running, failed, run_state_in, run_transitions}
use ska_sdp_mini_control.Store.Tables
use ska_sdp_mini_control.Store.Tables.{Db, run_row, insert_event, add_event}
use ska_sdp_mini_control.Store.Observations.{record_event}
use ska_sdp_mini_control.Store.Runs.{RunChange, transition_run, move_run}
use ska_sdp_mini_control.Store.Runs.Outcomes.{run_is, run_moved}
use ska_sdp_mini_control.Storage.{World, on_db}
use ska_sdp_mini_control.Storage.Rules.{on_db_rule}
use ska_sdp_mini_control.Scheduler.Process.{run_change, fail_run}
use ska_sdp_mini_control.Protocol.Kept.{InReach, transition_run-InReach, record_event-InReach}
use ska_sdp_mini_control.Protocol.Workers.{run_moved-is_not, transition_run_goes}

pub transition_run-Ensures :
    (rid : ℕ) (from to : RunState) (c : RunChange) (db : Db)
    → Ensures
        (λ _ t. t ≡ run_moved rid from to c db)
        (λ t. t ≡ db)
        (transition_run rid from to c db)
unfolding transition_run move_run
transition_run-Ensures rid from to c db = raise_if-then _ _ _ db refl λ legal.
    tx_rule (λ _ t. t ≡ run_moved rid from to c db) _ db
      (bind_ok _ _ db refl (raise_if-then _ _ _ _ tt λ one. returned refl))

-- The run is not RUNNING.
abbrev pub Settled : ℕ → World → Type 0
Settled rid t = run_is (run_row rid t.db) running ≡ false

abbrev pub Ended : ℕ → ℕ → World → Type 0
Ended n rid t = InReach n t × Settled rid t

module _ (n : ℕ) (room : 1 ≤ n) (rid : ℕ) where
  -- A move out of RUNNING ends it.
  pub move_ends :
      (from to : RunState) (c : RunChange) (w : World)
      → to ≢ queued
      → to ≢ running
      → (from ≡ running) ⊎ Settled rid w
      → InReach n w
      → Ensures (λ _ t. Ended n rid t) (InReach n) (on_db (transition_run rid from to c) w)
  move_ends from to c w other ends was reached =
      weaken_both (λ _ t h. (h.0, rw h.1 (run_moved-is_not rid running from to c w.db ends was)))
        (λ t h. h.0)
        (both (on_db (transition_run rid from to c) w)
          (transition_run-InReach n rid from to c w other reached)
          (on_db_rule (λ _ t. t.db ≡ run_moved rid from to c w.db) (λ _. Unit) _ w
            (weaken_both (λ _ _ h. h) (λ _ _. tt) (transition_run-Ensures rid from to c w.db))))

  pub fail_run_ends :
      (reason : String) (code : ℤ) (w : World)
      → InReach n w
      → Ensures (λ _ t. Ended n rid t) (InReach n) (fail_run rid running reason code w)
  unfolding fail_run
  fail_run_ends reason code w reached =
      move_ends running failed _ w (λ e. ground arith) (λ e. ground arith) (inl refl) reached

  -- A note in the log does not raise, and the run stays where it is.
  pub note_ends :
      (reason : String) (w : World)
      → Settled rid w
      → InReach n w
      → Ensures (λ _ t. Ended n rid t) (λ _. ⊥) (on_db (record_event Tables.run rid reason) w)
  unfolding on_db record_event tx insert_event add_event
  note_ends reason w settled reached =
      weaken_both (λ _ t h. h) (λ t h. h.0)
        (both {P = λ _ t. InReach n t} {Q = λ _ t. Settled rid t} {E = λ _. ⊥} {F = λ _. ⊥}
          (on_db (record_event Tables.run rid reason) w)
          (returned_ok tt refl (record_event-InReach n Tables.run rid reason w reached))
          (returned settled))

  -- A move that the row allows does not raise.
  pub mark_goes :
      (from : RunState) (reason : String) (code : ℤ) (w : World)
      → run_state_in failed (run_transitions from) ≡ true
      → (from ≡ running) ⊎ Settled rid w
      → run_is (run_row rid w.db) from ≡ true
      → InReach n w
      → Ensures
          (λ _ t. Ended n rid t)
          (λ _. ⊥)
          (suppress_transition_error (fail_run rid from reason code) w)
  unfolding on_db fail_run
  mark_goes from reason code w legal was holds reached =
      suppress_transition_rule (fail_run rid from reason code) w
        (returned_ok tt
          (ap (λ (r : Result Unit × Db). r.0)
            (transition_run_goes n room w reached rid from failed (run_change reason (some code))
              legal holds))
          (move_ends from failed (run_change reason (some code)) w (λ e. ground arith)
            (λ e. ground arith) was reached))
        (λ t e. absurd e)
