-- ===== src/Protocol/Processing/Delivered.antt =====
-- The worker of a run whose runner does well.
use ska_sdp_mini_control.Prelude.{
  ℕ, ◌≤◌, ◌≡◌, refl, ap, subst, true, some, none, ok, Result, String, Exc, Action, arith, tx, ◌>>=◌,
  ◌>>◌, ◌++◌, [], ◌∷◌, try_except,
}
use ska_sdp_mini_control.Prelude.Int.{pos, is_zero}
use ska_sdp_mini_control.Prelude.Ensures.{
  Ensures, returned, bind, bind_ok, then_ok, bind_then, weaken_both, try_rule,
}
use ska_sdp_mini_control.Models.{
  FilePath, Observation, ProcessingRun, queued, running, awaiting_qa, run_transitions,
}
use ska_sdp_mini_control.Models.Graph.{run_state_eq_iff}
use ska_sdp_mini_control.Files.{exists, parent}
use ska_sdp_mini_control.Store.Tables
use ska_sdp_mini_control.Store.Tables.{
  Db, obs_row, run_row, run_in_state, run_has_id, add_event, empty_db,
}
use ska_sdp_mini_control.Store.Observations.{record_event}
use ska_sdp_mini_control.Store.Runs.{change_run, transition_run}
use ska_sdp_mini_control.Store.Runs.Outcomes.{run_moved}
use ska_sdp_mini_control.Storage.{World, on_db}
use ska_sdp_mini_control.Storage.Rules.{on_db_goes}
use ska_sdp_mini_control.Scheduler.Process.{
  ProcessRun, run_change, claim_run, image_of, preview, show_product, product_made, execute,
  process_body, process,
}
use ska_sdp_mini_control.Protocol.Steps.{Steps, next, log, advance_run}
use ska_sdp_mini_control.Protocol.Workers.{
  transition_run_goes, run_moved-row, get_observation_goes, get_run_goes,
}

module _ (n : ℕ) (room : 1 ≤ n) (rid : ℕ) where
  -- The world after the claim, and the row of the run in it.
  abbrev pub claimed : World → World
  claimed w = record w {
    db = run_moved rid queued running (run_change "processing slot available" none) w.db;
  }

  abbrev pub at_work : ProcessingRun → ProcessingRun
  at_work r = record r { state = running }

  claim_moves :
      (w : World) (r : ProcessingRun)
      → Steps n empty_db w.db
      → run_row rid w.db ≡ some r
      → r.state ≡ queued
      → transition_run rid queued running (run_change "processing slot available" none) w.db
        ≡ (ok tt, (claimed w).db)
  unfolding run_transitions
  claim_moves w r reached found at =
      transition_run_goes n room w reached rid queued running
        (run_change "processing slot available" none) refl
        (rw found (ground (arith, at, run_state_eq_iff r.state queued)))

  pub claimed-Reached :
      (w : World) (r : ProcessingRun)
      → Steps n empty_db w.db
      → run_row rid w.db ≡ some r
      → r.state ≡ queued
      → Steps n empty_db (claimed w).db
  claimed-Reached w r reached found at =
      subst (λ t. Steps n empty_db t)
        (ap (λ (x : Result Unit × Db). x.1) (claim_moves w r reached found at))
        (next reached (
          advance_run w.db rid queued running (run_change "processing slot available" none)
            (λ e. ground arith)))

  claim_goes :
      (w : World) (r : ProcessingRun)
      → Steps n empty_db w.db
      → run_row rid w.db ≡ some r
      → r.state ≡ queued
      → claim_run rid w ≡ (ok true, claimed w)
  unfolding claim_run try_except ◌>>=◌ ◌>>◌
  claim_goes w r reached found at =
      rw
        (on_db_goes
          (transition_run rid queued running (run_change "processing slot available" none)) w
          (claim_moves w r reached found at))
        refl

  -- The worker that holds a slot: the run's end leaves the store reachable, the row as the claim has
  -- left it, and the image.
  pub record EndsWell (r : ProcessingRun) (u : World) : Type 0 where
    pub reached : Steps n empty_db u.db
    pub row : run_row rid u.db ≡ some (at_work r)
    pub image : exists (image_of r.output_prefix) u.files ≡ true

  abbrev pub at_qa : ProcessingRun → ProcessingRun
  at_qa r = record r { state = awaiting_qa; exit_code = some (pos 0) }

  abbrev Working : ProcessingRun → World → Type 0
  Working r u = Steps n empty_db u.db × (run_row rid u.db ≡ some (at_work r))

  note_goes :
      (r : ProcessingRun) (reason : String) (u : World)
      → Working r u
      → Ensures (λ _ t. Working r t) (λ _. ⊥) (on_db (record_event Tables.run rid reason) u)
  unfolding on_db record_event add_event tx ◌>>=◌ ◌>>◌
  note_goes r reason u (reached, row) =
      returned (next reached (log u.db Tables.run rid reason), row)

  -- `make_preview` draws, and leaves the tables alone, whether it returns or raises.
  module _ (make_preview : FilePath → FilePath → Action World Unit) (repr : Exc → String)
      (drawn : (image png : FilePath) (w : World)
        → Ensures (λ _ t. t.db ≡ w.db) (λ t. t.db ≡ w.db) (make_preview image png w)) where
    preview_goes :
        (r : ProcessingRun) (u : World)
        → Working r u
        → Ensures (λ _ t. Working r t) (λ _. ⊥) (preview make_preview repr rid r u)
    unfolding preview
    preview_goes r u working =
        try_rule (λ t. Working r t) _ _ u
          (bind_then (λ t. Working r t)
            (make_preview (image_of r.output_prefix) (parent r.output_prefix ++ "preview.png" ∷ []))
            _ u
            (weaken_both (λ _ t same. rw same working) (λ t same. rw same working) (drawn _ _ u))
            λ t kept. returned kept)
          λ e t kept.
            bind_then (λ v. Working r v) _ _ t
              (weaken_both (λ _ _ h. h) (λ _ never. absurd never) (note_goes r _ t kept))
              λ v kept'. returned kept'

    abbrev Delivered : ProcessingRun → World → Type 0
    Delivered r t = run_row rid t.db ≡ some (at_qa r)

    show_product_goes :
        (r : ProcessingRun) (u : World)
        → Working r u
        → Ensures (λ _ t. Delivered r t) (λ _. ⊥) (show_product make_preview repr rid r u)
    unfolding show_product run_transitions change_run
    show_product_goes r u working =
        bind (λ _ t. Working r t) _ _ u (preview_goes r u working)
          λ reason t (reached, row).
            rw
              (on_db_goes
                (transition_run rid running awaiting_qa (run_change reason (some (pos 0)))) t
                (transition_run_goes n room t reached rid running awaiting_qa
                  (run_change reason (some (pos 0))) refl (rw row refl)))
              (returned (
                run_moved-row rid running awaiting_qa (run_change reason (some (pos 0))) t.db
                  (at_work r) row refl))

    -- The worker of a run that is QUEUED in a reachable store when it gets its slot, and whose
    -- observation is there, returns and leaves the run AWAITING_QA with the exit code 0, where the
    -- runner ends with 0, in a reachable store with the row as the claim has left it, and leaves
    -- the image, and where the drawing of the preview leaves the tables alone, whether it returns
    -- or raises.
    pub process_delivers :
        (job : ProcessRun) (w : World) (r : ProcessingRun) (o : Observation)
        → Steps n empty_db (job.slot w).db
        → run_row rid (job.slot w).db ≡ some r
        → r.state ≡ queued
        → obs_row r.observation_id (job.slot w).db ≡ some o
        → job.outcome ≡ ok (pos 0)
        → EndsWell r (job.ending (claimed (job.slot w)))
        → Ensures
            (λ _ t. run_row rid t.db ≡ some (at_qa r))
            (λ _. ⊥)
            (process make_preview repr job rid w)
    unfolding process process_body execute product_made is_zero add_event
    process_delivers job w r o reached found at there code well =
        let v = job.slot w in
        let u = job.ending (claimed v) in
        try_rule (λ _. ⊥) _ _ w
          (then_ok _ _ w refl (
            bind_ok _ _ v (get_run_goes rid v r found) (
              bind_ok _ _ v (claim_goes v r reached found at) (
                then_ok _ _ (claimed v) (get_observation_goes r.observation_id (claimed v) o there)
                  (then_ok _ _ (claimed v) refl (
                    bind_ok _ _ u {a = pos 0} {t = u} (rw code refl) (
                      bind_ok _ _ u refl
                        (rw well.image (show_product_goes r u (well.reached, well.row))))))))))
          λ e t never. absurd never
