-- ===== src/Protocol/Observing/Stored.antt =====
-- The worker of an observation whose runner does well.
use ska_sdp_mini_control.Prelude.{
  ℕ, ◌≤◌, ◌≡◌, refl, ap, subst, true, false, Bool, some, ok, Result, Exc, String, List, [], ◌∷◌,
  arith, ◌>>=◌, ◌>>◌, leb, try_except,
}
use ska_sdp_mini_control.Prelude.Int.{pos, is_zero}
use ska_sdp_mini_control.Prelude.Ensures.{
  Ensures, returned, bind, bind_ok, then_ok, weaken, try_rule,
}
use ska_sdp_mini_control.Models.{Observation, planned, observing, stored, obs_transitions}
use ska_sdp_mini_control.Models.Graph.{obs_state_eq_iff}
use ska_sdp_mini_control.Store.Tables.{Db, obs_row, empty_db}
use ska_sdp_mini_control.Store.Observations.{change_observation, transition_observation}
use ska_sdp_mini_control.Store.Observations.Outcomes.{obs_moved}
use ska_sdp_mini_control.Storage.{World, apparent_size}
use ska_sdp_mini_control.Storage.Rules.{on_db_goes}
use ska_sdp_mini_control.Scheduler.{Config}
use ska_sdp_mini_control.Scheduler.Observe.{
  Interference, ObserveRun, admitted, completed, claim_observation, watch, store_data, runner_done,
  await_runner, supervise, observe_claimed, observe_body, observe,
}
use ska_sdp_mini_control.Protocol.Steps.{Steps, next, advance_obs}
use ska_sdp_mini_control.Protocol.Workers.{
  transition_observation_goes, obs_moved-row, get_observation_goes,
}

module _ (n : ℕ) (room : 1 ≤ n) (oid : ℕ) (cfg : Config) where
  -- The world after the claim.
  abbrev pub claimed : World → World
  claimed w = record w { db = obs_moved oid planned observing admitted w.db }

  claim_moves :
      (w : World) (o : Observation)
      → Steps n empty_db w.db
      → obs_row oid w.db ≡ some o
      → o.state ≡ planned
      → transition_observation oid planned observing admitted w.db ≡ (ok tt, (claimed w).db)
  unfolding obs_transitions
  claim_moves w o reached found at =
      transition_observation_goes n room w reached oid planned observing admitted refl
        (rw found (ground (arith, at, obs_state_eq_iff o.state planned)))

  claim_goes :
      (w : World) (o : Observation)
      → Steps n empty_db w.db
      → obs_row oid w.db ≡ some o
      → o.state ≡ planned
      → claim_observation oid w ≡ (ok true, claimed w)
  unfolding claim_observation try_except ◌>>=◌ ◌>>◌
  claim_goes w o reached found at =
      rw
        (on_db_goes (transition_observation oid planned observing admitted) w
          (claim_moves w o reached found at))
        refl

  pub claimed-Reached :
      (w : World) (o : Observation)
      → Steps n empty_db w.db
      → obs_row oid w.db ≡ some o
      → o.state ≡ planned
      → Steps n empty_db (claimed w).db
  claimed-Reached w o reached found at =
      subst (λ t. Steps n empty_db t)
        (ap (λ (r : Result Unit × Db). r.1) (claim_moves w o reached found at))
        (next reached (
          advance_obs w.db oid planned observing admitted (λ e. ground arith)
            (λ e. absurd (e refl))))

  -- What the worker leaves of the row of an observation whose data has `size` bytes.
  abbrev pub under_way : Observation → Observation
  under_way o = record o { state = observing }

  abbrev pub at_rest : ℕ → Observation → Observation
  at_rest size o = record o { state = stored; size_bytes = size; reserved_bytes = 0 }

  pub claimed_row :
      (w : World) (o : Observation)
      → obs_row oid w.db ≡ some o
      → o.state ≡ planned
      → obs_row oid (claimed w).db ≡ some (under_way o)
  unfolding change_observation
  claimed_row w o found at = obs_moved-row oid planned observing admitted w.db o found at

  abbrev pub Fits : Observation → World → Type 0
  Fits o v = leb (apparent_size o.ms_path v.files) cfg.observation_reservation ≡ true

  -- After the runner's end the store is reachable, the row is as the claim has left it, and the
  -- data fits.
  pub record EndsWell (o : Observation) (u : World) : Type 0 where
    pub reached : Steps n empty_db u.db
    pub row : obs_row oid u.db ≡ some (under_way o)
    pub fits : Fits o u

  abbrev pub AllWell :
      (List Interference → World → Type 0) → Observation → List Interference → Type 0
  AllWell P o [] = Unit {0}
  AllWell P o (sleep ∷ sleeps) =
      ((v : World) → P (sleep ∷ sleeps) v → P sleeps (sleep v) × Fits o (sleep v))
      × AllWell P o sleeps

  -- The runner does well: what is known of the world before the sleeps that are left (`P`) holds
  -- after the claim and after each sleep, where the data fits; it ends well, with the exit code 0.
  pub record DoesWell (P : List Interference → World → Type 0) (o : Observation) (run : ObserveRun)
      (w : World) : Type 0 where
    pub begins : P run.sleeps (claimed w)
    pub sleeps_well : AllWell P o run.sleeps
    pub ends_well : (v : World) → P [] v → EndsWell o (run.ending v)
    pub exit_code : run.outcome ≡ ok (pos 0)

  module _ (P : List Interference → World → Type 0) (o : Observation) (run : ObserveRun) where
    -- The watchdog sees no overrun.
    watch_quiet :
        (warned : Bool) (sleeps : List Interference) (v : World)
        → AllWell P o sleeps
        → P sleeps v
        → Ensures
            (λ b t. (b ≡ false) × P [] t)
            (λ _. ⊥)
            (watch cfg run oid o.ms_path warned sleeps v)
    unfolding watch
    watch_quiet warned [] v well p = returned (refl, p)
    watch_quiet warned (sleep ∷ sleeps) v (first, rest) p =
        let (p', fits) = first v p in
        then_ok _ _ v refl
          (bind_ok _ _ (sleep v) refl (rw fits (watch_quiet warned sleeps (sleep v) rest p')))

    -- The row and the data after `u`, the world in which the runner has ended.
    abbrev Recorded : World → World → Type 0
    Recorded u t =
        (t.files ≡ u.files)
        × (obs_row oid t.db ≡ some (at_rest (apparent_size o.ms_path t.files) o))

    abbrev Stored : World → Type 0
    Stored t =
        (v : World) × P [] v
        × (t.files ≡ (run.ending v).files)
        × (obs_row oid t.db ≡ some (at_rest (apparent_size o.ms_path t.files) o))

    store_data_goes :
        (u : World)
        → EndsWell o u
        → Ensures (λ _ t. Recorded u t) (λ _. ⊥) (runner_done cfg run oid o.ms_path u)
    unfolding runner_done store_data obs_transitions change_observation
    store_data_goes u well =
        let size = apparent_size o.ms_path u.files in
        bind_ok _ _ u refl (
          rw well.fits (
            rw
              (on_db_goes (transition_observation oid observing stored (completed size)) u (
                transition_observation_goes n room u well.reached oid observing stored
                  (completed size) refl (rw well.row refl)))
              (returned (
                refl,
                obs_moved-row oid observing stored (completed size) u.db (under_way o) well.row
                    refl,
              ))))

    await_runner_goes :
        (v : World)
        → EndsWell o (run.ending v)
        → run.outcome ≡ ok (pos 0)
        → Ensures (λ _ t. Recorded (run.ending v) t) (λ _. ⊥) (await_runner cfg run oid o.ms_path v)
    unfolding await_runner is_zero
    await_runner_goes v well code = then_ok _ _ v refl (
        bind_ok _ _ (run.ending v) {a = pos 0} {t = run.ending v} (rw code refl)
          (store_data_goes (run.ending v) well))

    supervise_goes :
        (w : World)
        → DoesWell P o run w
        → Ensures (λ _ t. Stored t) (λ _. ⊥) (supervise cfg run oid o.ms_path (claimed w))
    unfolding supervise
    supervise_goes w well =
        bind (λ b t. (b ≡ false) × P [] t) _ _ (claimed w)
          (watch_quiet false run.sleeps (claimed w) well.sleeps_well well.begins)
          λ b t (quiet, p). rw quiet (
            weaken (λ _ u h. (t, p, h.0, h.1))
              (await_runner_goes t (well.ends_well t p) well.exit_code))

    -- The worker of a PLANNED observation of a reachable store returns and leaves the files as the
    -- runner's end has left them, and the row STORED, with the apparent size of its data and
    -- without a reservation, where the data fits the reservation after each sleep of the watchdog
    -- and after the runner's end, and the runner ends with 0, in a reachable store with the row as
    -- the claim has left it.
    pub observe_stores :
        (repr : Exc → String) (w : World)
        → Steps n empty_db w.db
        → obs_row oid w.db ≡ some o
        → o.state ≡ planned
        → DoesWell P o run w
        → Ensures
            (λ _ t.
              (v : World) × P [] v
              × (t.files ≡ (run.ending v).files)
              × (obs_row oid t.db ≡ some (at_rest (apparent_size o.ms_path t.files) o)))
            (λ _. ⊥)
            (observe repr cfg run oid w)
    unfolding observe observe_body observe_claimed
    observe_stores repr w reached found at well =
        try_rule (λ _. ⊥) _ _ w
          (then_ok _ _ w (get_observation_goes oid w o found) (
            bind_ok _ _ w (claim_goes w o reached found at) (
              bind_ok _ _ (claimed w)
                (get_observation_goes oid (claimed w) (under_way o) (claimed_row w o found at))
                (supervise_goes w well))))
          λ e t never. absurd never
