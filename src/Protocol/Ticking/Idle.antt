-- ===== src/Protocol/Ticking/Idle.antt =====
-- What holds when the scheduler is idle.
use ska_sdp_mini_control.Prelude.{
  ℕ, ◌≤◌, ◌≡◌, inl, inr, refl, arith, Bool, Bool-cases, true, false, String, Exc, List, [], ◌∷◌,
  Memᴰ, select, select-mem, ◌&&◌,
}
use ska_sdp_mini_control.Prelude.Ensures.{
  Ensures, returned, raised, bind, bind_ok, then_ok, weaken_both,
}
use ska_sdp_mini_control.Models.{
  Observation, ProcessingRun, planned, observing, stored, queued, running, obs_state_in,
  run_state_in,
}
use ska_sdp_mini_control.Store.Tables.{Db, empty_db}
use ska_sdp_mini_control.Store.Observations.{list_observations}
use ska_sdp_mini_control.Store.Runs.{list_runs}
use ska_sdp_mini_control.Storage.{World}
use ska_sdp_mini_control.Scheduler.{Config}
use ska_sdp_mini_control.Scheduler.Tick.{Tasks, tick, Pause}
use ska_sdp_mini_control.Scheduler.Idle.{is_empty, is_idle, run_until_idle}
use ska_sdp_mini_control.Protocol.Steps.{Steps}
use ska_sdp_mini_control.Protocol.Ticking.Initial.{HasRun}
use ska_sdp_mini_control.Protocol.Ticking.Dispatch.{Dispatched, tick_lem, AllKeep}

-- Nothing is under way, and every observation that is STORED has a run.
pub record Idle (db : Db) : Type 0 where
  pub not_observing :
      (o : Observation)
      → Memᴰ o db.observations
      → obs_state_in o.state (planned ∷ observing ∷ []) ≡ false
  pub not_processing :
      (r : ProcessingRun) → Memᴰ r db.runs → run_state_in r.state (queued ∷ running ∷ []) ≡ false
  pub stored_has_run : (o : Observation) → Memᴰ o db.observations → o.state ≡ stored → HasRun db o

none_selected :
    {A : Type 0} (p : A → Bool) (xs : List A) {x : A}
    → is_empty (select p xs) ≡ true
    → Memᴰ x xs
    → p x ≡ false
none_selected p xs {x} empty m = elim (Bool-cases (p x)) [
  | inl pass ↦ absurd (go (select p xs) empty (select-mem p xs m pass))
  | inr fail ↦ fail
]
  where
    go : (ys : List _) → is_empty ys ≡ true → Memᴰ x ys → ⊥
    go [] e m = elim m [ ]
    go (y ∷ ys) e m = cc

is_idle-Idle :
    (alive : Tasks) (w : World) → is_idle alive w ≡ true → Dispatched alive w.db → Idle w.db
unfolding is_idle list_observations list_runs
is_idle-Idle alive w idle h = record {
  not_observing = λ o m.
      none_selected (λ x. obs_state_in x.state (planned ∷ observing ∷ [])) w.db.observations
        (ground arith) m;
  not_processing = λ r m.
      let wanted : run_state_in r.state (queued ∷ running ∷ []) && true ≡ false =
        none_selected (λ x. (run_state_in x.state (queued ∷ running ∷ [])) && true) w.db.runs
          (ground arith) m in
      ground (arith, wanted);
  stored_has_run = h.stored_has_run;
}

module _ (n : ℕ) (room : 1 ≤ n) (repr : Exc → String) (cfg : Config)
    (budget : cfg.max_processing_attempts ≡ n) where
  tick_returns :
      (tasks : Tasks) (w : World)
      → Steps n empty_db w.db
      → Ensures
          (λ alive t. Steps n empty_db t.db × Dispatched alive t.db)
          (λ t. Steps n empty_db t.db)
          (tick repr cfg tasks w)
  tick_returns tasks w reached =
      weaken_both (λ alive t h. h) (λ t never. absurd never)
        (tick_lem n room repr cfg budget tasks w reached)

  -- The loop until the scheduler is idle: where it returns, the store is reachable, no observation is
  -- PLANNED or OBSERVING, no run is QUEUED or RUNNING, and every STORED observation has a run; where
  -- the timeout ends it, the store is reachable too. What happens in its sleeps takes reachable
  -- stores to reachable stores, and the budget is max_processing_attempts.
  pub run_until_idle_lem :
      (pauses : List Pause) (tasks : Tasks) (w : World)
      → AllKeep n room repr cfg budget pauses
      → Steps n empty_db w.db
      → Ensures
          (λ _ t. Steps n empty_db t.db × Idle t.db)
          (λ t. Steps n empty_db t.db)
          (run_until_idle repr cfg pauses tasks w)
  unfolding run_until_idle
  run_until_idle_lem [] tasks w keep reached =
      bind (λ alive t. Steps n empty_db t.db × Dispatched alive t.db) _ _ w
        (tick_returns tasks w reached)
        λ alive t (r, d). bind_ok _ _ t refl (elim (Bool-cases (is_idle alive t)) [
          | inl idle ↦ rw idle (returned (r, is_idle-Idle alive t idle d))
          | inr busy ↦ rw busy (raised r)
        ])
  run_until_idle_lem (pause ∷ pauses) tasks w keep reached =
      bind (λ alive t. Steps n empty_db t.db × Dispatched alive t.db) _ _ w
        (tick_returns tasks w reached)
        λ alive t (r, d). bind_ok _ _ t refl (elim (Bool-cases (is_idle alive t)) [
          | inl idle ↦ rw idle (returned (r, is_idle-Idle alive t idle d))
          | inr busy ↦ rw busy (
              then_ok _ _ t refl (
                run_until_idle_lem pauses (pause.left alive) (pause.meanwhile t) keep.1
                  (keep.0 t r)))
        ])
