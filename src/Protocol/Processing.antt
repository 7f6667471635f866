-- ===== src/Protocol/Processing.antt =====
-- The worker of a processing run, as steps of the store.
pub mod Moves
pub mod Delivered
use ska_sdp_mini_control.Prelude.{
  ℕ, ◌≤◌, ◌≡◌, ◌≢◌, ◌⊎◌, inl, inr, refl, ap, true, false, some, none, Option-cases, Bool-cases,
  String, Exc, Result, Action, ok, err, arith, ◌>>=◌, if◌then◌else◌, tx, transition_error,
  suppress_transition_error,
}
use ska_sdp_mini_control.Prelude.Int.{ℤ, is_zero}
use ska_sdp_mini_control.Prelude.Ensures.{
  Ensures, returned, raised, bind, bind_ok, then_ok, bind_then, bind_read, then_read, weaken,
  weaken_both, both, try_rule, suppress_transition_rule, returned_ok, raise_if-then, tx_rule,
}
use ska_sdp_mini_control.Models.{
  FilePath, ProcessingRun, RunState, queued, running, failed, awaiting_qa, run_state_eq,
  run_state_in, run_transitions,
}
use ska_sdp_mini_control.Models.Graph.{run_state_eq_iff}
use ska_sdp_mini_control.Files.{exists}
use ska_sdp_mini_control.Store.Tables
use ska_sdp_mini_control.Store.Tables.{Db, run_row, empty_db}
use ska_sdp_mini_control.Store.Runs.{transition_run}
use ska_sdp_mini_control.Store.Runs.Outcomes.{run_is}
use ska_sdp_mini_control.Storage.{World, on_db}
use ska_sdp_mini_control.Qa.Outcomes.{get_run_in, get_observation_in}
use ska_sdp_mini_control.Scheduler.Observe.{lose_claim}
use ska_sdp_mini_control.Scheduler.Process.{
  ProcessRun, run_change, claim_run, image_of, fail_run, preview, show_product, product_made,
  execute, process_body, fail_processing, process_failed_with, process,
}
use ska_sdp_mini_control.Protocol.Steps.{Steps}
use ska_sdp_mini_control.Protocol.Kept.{
  InReach, StaysInReach, transition_run-InReach, record_event-InReach,
}
use ska_sdp_mini_control.Protocol.Workers.{Quiet, transition_run_goes}
use ska_sdp_mini_control.Protocol.Processing.Moves.{
  Settled, Ended, move_ends, fail_run_ends, note_ends, mark_goes,
}

module _ (n : ℕ) (room : 1 ≤ n) (rid : ℕ) where
  module _ (make_preview : FilePath → FilePath → Action World Unit) (repr : Exc → String)
      (drawn : (image png : FilePath) (w : World)
        → InReach n w
        → StaysInReach n (make_preview image png w)) where
    fail_processing_ends :
        (exc : Exc) (r : ProcessingRun) (w : World)
        → run_row rid w.db ≡ some r
        → InReach n w
        → Ensures (λ _ t. Ended n rid t) (λ _. ⊥) (fail_processing make_preview repr rid exc r w)
    unfolding fail_processing run_transitions
    fail_processing_ends exc r w found reached = elim (Bool-cases (run_state_eq r.state queued)) [
      | inl early ↦ rw early (
          mark_goes n room rid queued _ _ w refl
            (inr (rw found (ground (arith, run_state_eq_iff r.state queued)))) (rw found early)
            reached)
      | inr late ↦ rw late (elim (Bool-cases (run_state_eq r.state running)) [
        | inl busy ↦
            rw busy (mark_goes n room rid running _ _ w refl (inl refl) (rw found busy) reached)
        | inr other ↦ rw other (note_ends n room rid _ w (rw found other) reached)
      ])
    ]

    process_failed_with_ends :
        (exc : Exc) (w : World)
        → InReach n w
        → Ensures (λ _ t. Ended n rid t) (λ _. ⊥) (process_failed_with make_preview repr rid exc w)
    unfolding process_failed_with
    process_failed_with_ends exc w reached =
        bind_ok _ _ w refl (elim (Option-cases (run_row rid w.db)) [
          | inl absent ↦ rw absent (returned (reached, rw absent refl))
          | inr (r, found) ↦ rw found (fail_processing_ends exc r w found reached)
        ])

    preview-InReach :
        (r : ProcessingRun) (w : World)
        → InReach n w
        → StaysInReach n (preview make_preview repr rid r w)
    unfolding preview
    preview-InReach r w reached =
        try_rule (InReach n) _ _ w
          (bind_then (InReach n) _ _ w (drawn _ _ w reached) λ t kept. returned kept)
          λ e t kept.
            bind_then (InReach n) _ _ t (record_event-InReach n Tables.run rid _ t kept)
              λ u kept'. returned kept'

    product_made_ends :
        (r : ProcessingRun) (w : World)
        → InReach n w
        → Ensures (λ _ t. Ended n rid t) (InReach n) (product_made make_preview repr rid r w)
    unfolding product_made show_product
    product_made_ends r w reached =
        bind_ok _ _ w refl (elim (Bool-cases (exists (image_of r.output_prefix) w.files)) [
          | inl there ↦ rw there (
              bind (λ _ t. InReach n t) _ _ w (preview-InReach r w reached)
                λ reason t kept.
                  move_ends n room rid running awaiting_qa _ t (λ e. ground arith)
                    (λ e. ground arith) (inl refl) kept)
          | inr missing ↦ rw missing (fail_run_ends n room rid _ _ w reached)
        ])

    exit_ends :
        (rc : Result ℤ) (r : ProcessingRun) (w : World)
        → InReach n w
        → Ensures
            (λ _ t. Ended n rid t)
            (InReach n)
            (((λ s. (rc, s)) >>= λ code.
                if is_zero code
                then product_made make_preview repr rid r
                else fail_run rid running "processing exited non-zero" code)
              w)
    unfolding ◌>>=◌
    exit_ends (err e) r w reached = raised reached
    exit_ends (ok code) r w reached = elim (Bool-cases (is_zero code)) [
      | inl zero_code ↦ rw zero_code (product_made_ends r w reached)
      | inr other ↦ rw other (fail_run_ends n room rid _ _ w reached)
    ]

    module _ (job : ProcessRun) (slot : Quiet n job.slot) (ending : Quiet n job.ending) where
      execute_ends :
          (r : ProcessingRun) (w : World)
          → InReach n w
          → Ensures (λ _ t. Ended n rid t) (InReach n) (execute make_preview repr job rid r w)
      unfolding execute
      execute_ends r w reached =
          then_read (λ _. Unit) _ _ w
            (weaken_both (λ _ t h. (h.0, tt)) (λ t same. rw same reached)
              (get_observation_in r.observation_id w))
            λ _ _. then_ok _ _ w refl (exit_ends job.outcome r (job.ending w) (ending w reached))

      -- Where the run was QUEUED when the worker got its slot, it has ended.
      abbrev Finishes : World → World → Type 0
      Finishes v t = InReach n t × (run_is (run_row rid v.db) queued ≡ true → Settled rid t)

      -- The claim of a run that is QUEUED succeeds.
      claim-Claimed :
          (w : World)
          → InReach n w
          → Ensures
              (λ b t. InReach n t × (run_is (run_row rid w.db) queued ≡ true → b ≡ true))
              (InReach n)
              (claim_run rid w)
      unfolding claim_run run_transitions on_db
      claim-Claimed w reached = elim (Bool-cases (run_is (run_row rid w.db) queued)) [
        | inl early ↦
            try_rule (λ _. ⊥) _ _ w
              (bind_then (InReach n) _ _ w
                (returned_ok tt
                  (ap (λ (r : Result Unit × Db). r.0)
                    (transition_run_goes n room w reached rid queued running
                      (run_change "processing slot available" none) refl early))
                  (moved w reached))
                λ t kept. returned (kept, λ _. refl))
              λ e t never. absurd never
        | inr late ↦
            try_rule (InReach n) _ _ w
              (bind_then (InReach n) _ _ w (moved w reached)
                λ t kept. returned (kept, λ e. absurd cc))
              λ e t kept. lost e t kept (λ h. absurd cc)
      ]
        where
          moved :
              (v : World)
              → InReach n v
              → StaysInReach n (
                  on_db
                    (transition_run rid queued running
                      (run_change "processing slot available" none))
                    v)
          moved v holds = transition_run-InReach n rid queued running _ v (λ e. ground arith) holds

          lost :
              (e : Exc) (t : World)
              → InReach n t
              → (run_is (run_row rid w.db) queued ≡ true → ⊥)
              → Ensures
                  (λ b u. InReach n u × (run_is (run_row rid w.db) queued ≡ true → b ≡ true))
                  (InReach n)
                  (lose_claim e t)
          lost (transition_error _) t kept never = returned (kept, λ h. absurd (never h))
          lost _ t kept never = raised kept

      process_body-Finishes :
          (w : World)
          → InReach n w
          → Ensures
              (λ _ t. Finishes (job.slot w) t)
              (InReach n)
              (process_body make_preview repr job rid w)
      unfolding process_body
      process_body-Finishes w reached = then_ok _ _ w refl (
          bind_read (λ _. Unit) _ _ (job.slot w)
            (weaken_both (λ _ t h. (h.0, tt)) (λ t same. rw same (slot w reached))
              (get_run_in rid (job.slot w)))
            λ r _.
              bind
                (λ b t.
                  InReach n t × (run_is (run_row rid (job.slot w).db) queued ≡ true → b ≡ true))
                _ _ (job.slot w) (claim-Claimed (job.slot w) (slot w reached))
                λ b t claim. elim (Bool-cases b) [
                  | inl won ↦
                      rw won
                        (weaken (λ _ u ended. (ended.0, λ _. ended.1)) (execute_ends r t claim.0))
                  | inr gone ↦
                      rw gone (returned (claim.0, λ early. absurd (let e = claim.1 early in cc)))
                ])

      process-Finishes :
          (w : World)
          → InReach n w
          → Ensures (λ _ t. Finishes (job.slot w) t) (λ _. ⊥) (process make_preview repr job rid w)
      unfolding process
      process-Finishes w reached =
          try_rule (InReach n) _ _ w (process_body-Finishes w reached) λ e t kept.
            weaken (λ _ u ended. (ended.0, λ _. ended.1)) (process_failed_with_ends e t kept)

      -- The worker of a run that is QUEUED when the worker gets its slot never raises. It takes a
      -- reachable store to a reachable store, in which the run is not RUNNING, whether the runner
      -- succeeds or fails, and whatever raises on the way, where what happens in its awaits and the
      -- drawing of the preview take reachable stores to reachable stores.
      pub process_settles :
          (w : World)
          → Steps n empty_db w.db
          → run_is (run_row rid (job.slot w).db) queued ≡ true
          → Ensures
              (λ _ t. Steps n empty_db t.db × (run_is (run_row rid t.db) running ≡ false))
              (λ _. ⊥)
              (process make_preview repr job rid w)
      process_settles w reached early =
          weaken (λ _ t h. (h.0, h.1 early)) (process-Finishes w reached)
