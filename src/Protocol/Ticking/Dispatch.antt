-- ===== src/Protocol/Ticking/Dispatch.antt =====
-- What a tick leaves: no row that waits is without a worker.
use ska_sdp_mini_control.Prelude.{
  ℕ, ◌≤◌, ◌≡◌, ◌⊎◌, inl, inr, refl, subst, ap, arith, Bool-cases, none, String, Exc, List, [], ◌∷◌,
  ◌++◌, Memᴰ, map, select, select-mem, mem-append_one, any, any-mem, ◌==◌,
}
use ska_sdp_mini_control.Prelude.Ensures.{Ensures, returned, bind, bind_ok, then_ok, bind_then}
use ska_sdp_mini_control.Models.{Observation, ProcessingRun, planned, queued, stored}
use ska_sdp_mini_control.Models.Graph.{obs_state_eq_iff, run_state_eq_iff}
use ska_sdp_mini_control.Store.Tables.{Db, empty_db}
use ska_sdp_mini_control.Store.Observations.{list_observations}
use ska_sdp_mini_control.Store.Runs.{list_runs}
use ska_sdp_mini_control.Storage.{World}
use ska_sdp_mini_control.Scheduler.{Config}
use ska_sdp_mini_control.Scheduler.Tick.{
  Tasks, has_no_task, idle_observations, idle_runs, tick, Pause, run,
}
use ska_sdp_mini_control.Protocol.Steps.{Steps}
use ska_sdp_mini_control.Protocol.Kept.{InReach}
use ska_sdp_mini_control.Protocol.Workers.{Quiet}
use ska_sdp_mini_control.Protocol.Ticking.Sweep.{sweep-InReach}
use ska_sdp_mini_control.Protocol.Ticking.Retry.{retry_failed_runs-InReach}
use ska_sdp_mini_control.Protocol.Ticking.Admit.{
  Admitted, refused, admitted, Admits, admission-Admits,
}
use ska_sdp_mini_control.Protocol.Ticking.Initial.{HasRun, serve_all}

module _ {A : Type 0} where
  mem-append_left : (xs ys : List A) {x : A} → Memᴰ x xs → Memᴰ x (xs ++ ys)
  mem-append_left [] ys m = elim m [ ]
  mem-append_left (y ∷ xs) ys (Memᴰ.head e) = Memᴰ.head e
  mem-append_left (y ∷ xs) ys (Memᴰ.tail m) = Memᴰ.tail (mem-append_left xs ys m)

  mem-append_right : (xs ys : List A) {x : A} → Memᴰ x ys → Memᴰ x (xs ++ ys)
  mem-append_right [] ys m = m
  mem-append_right (y ∷ xs) ys m = Memᴰ.tail (mem-append_right xs ys m)

  mem-map : {B : Type 0} (f : A → B) (xs : List A) {x : A} → Memᴰ x xs → Memᴰ (f x) (map f xs)
  mem-map f [] m = elim m [ ]
  mem-map f (y ∷ xs) (Memᴰ.head e) = Memᴰ.head (ap f e)
  mem-map f (y ∷ xs) (Memᴰ.tail m) = Memᴰ.tail (mem-map f xs m)

-- A key has a task already, or gets one.
gets_task :
    (tasks keys : List ℕ) {k : ℕ}
    → Memᴰ k keys
    → Memᴰ k (select (has_no_task tasks) keys) ⊎ Memᴰ k tasks
unfolding has_no_task
gets_task tasks keys {k} m = elim (Bool-cases (any (λ j. j == k) tasks)) [
  | inl alive ↦
      let (j, mj, e) = any-mem (λ j. j == k) tasks alive in
      inr (subst (λ i. Memᴰ i tasks) (ground (arith, e)) mj)
  | inr idle ↦ inl (select-mem (has_no_task tasks) keys m (ground arith))
]

-- Every row that waits for a worker has one.
pub record Dispatched (tasks : Tasks) (db : Db) : Type 0 where
  pub planned_has_task :
      (o : Observation) → Memᴰ o db.observations → o.state ≡ planned → Memᴰ o.id tasks.obs_tasks
  pub queued_has_task :
      (r : ProcessingRun) → Memᴰ r db.runs → r.state ≡ queued → Memᴰ r.id tasks.run_tasks
  pub stored_has_run : (o : Observation) → Memᴰ o db.observations → o.state ≡ stored → HasRun db o

runs_dispatched :
    (tasks : List ℕ) (db : Db) (r : ProcessingRun)
    → Memᴰ r db.runs
    → r.state ≡ queued
    → Memᴰ r.id (idle_runs tasks (list_runs (queued ∷ []) none db) ++ tasks)
unfolding idle_runs list_runs
runs_dispatched tasks db r m at =
    let rows = list_runs (queued ∷ []) none db in
    let listed : Memᴰ r rows =
      select-mem _ db.runs m (ground (arith, run_state_eq_iff r.state queued)) in
    elim (gets_task tasks (map (λ r. r.id) rows)
      (mem-map (λ (r : ProcessingRun). r.id) rows listed)) [
        | inl new ↦ mem-append_left _ tasks new
        | inr old ↦ mem-append_right (idle_runs tasks rows) tasks old
      ]

observations_dispatched :
    (tasks ids : List ℕ) (db : Db) (os : List Observation) (o : Observation)
    → Admitted db.observations ids os
    → Memᴰ o os
    → o.state ≡ planned
    → Memᴰ o.id (idle_observations tasks (list_observations (planned ∷ []) db) ++ ids ++ tasks)
unfolding idle_observations list_observations
observations_dispatched tasks ids db os o how m at =
    let rows = list_observations (planned ∷ []) db in
    elim (was_there how m) [
      | inl new ↦ mem-append_left _ tasks (mem-append_right (idle_observations tasks rows) ids new)
      | inr old ↦
          let listed : Memᴰ o rows =
            select-mem _ db.observations old (ground (arith, obs_state_eq_iff o.state planned)) in
          elim (gets_task tasks (map (λ o. o.id) rows)
            (mem-map (λ (o : Observation). o.id) rows listed)) [
              | inl new ↦ mem-append_left _ tasks (mem-append_left _ ids new)
              | inr task ↦ mem-append_right (idle_observations tasks rows ++ ids) tasks task
            ]
    ]
  where
    was_there :
        {before after : List Observation} {new : List ℕ}
        → Admitted before new after
        → Memᴰ o after
        → Memᴰ o.id new ⊎ Memᴰ o before
    was_there refused m = inr m
    was_there {before} (admitted p idle) m = elim (mem-append_one before m) [
      | inl old ↦ inr old
      | inr e ↦ inl (Memᴰ.head (ap (λ (o : Observation). o.id) e))
    ]

module _ (n : ℕ) (room : 1 ≤ n) (repr : Exc → String) (cfg : Config)
    (budget : cfg.max_processing_attempts ≡ n) where
  -- A tick of a reachable store never raises. It leaves a reachable store, in which every STORED
  -- observation has a run, and tasks among which every PLANNED observation and every QUEUED run
  -- has one.
  pub tick_lem :
      (tasks : Tasks) (w : World)
      → Steps n empty_db w.db
      → Ensures
          (λ alive t. Steps n empty_db t.db × Dispatched alive t.db)
          (λ _. ⊥)
          (tick repr cfg tasks w)
  unfolding tick
  tick_lem tasks w reached =
      bind_then (InReach n) _ _ w (sweep-InReach n room cfg.data_root tasks w reached) λ a ra.
        bind_then (InReach n) _ _ a (rw budget (retry_failed_runs-InReach n room repr a ra)) λ b rb.
          bind_ok _ _ b refl (
            bind (Admits n b) _ _ b (admission-Admits n room cfg b rb) λ ids c (rc, how).
              bind_ok _ _ c refl (
                bind_then _ _ _ c (serve_all n room c.db cfg.data_root c refl rc)
                  λ d (rd, same, runs). bind_ok _ _ d refl (
                    returned (
                      rd,
                      record {
                        planned_has_task = λ o m at.
                            observations_dispatched tasks.obs_tasks ids b.db _ o how (rw (← same) m)
                              at;
                        queued_has_task = λ r m at. runs_dispatched tasks.run_tasks d.db r m at;
                        stored_has_run = λ o m at. runs o (rw (← same) m) at;
                      },
                    ))))

  -- The sleeps keep the store reachable.
  abbrev pub AllKeep : List Pause → Type 0
  AllKeep [] = Unit
  AllKeep (pause ∷ pauses) = Quiet n pause.meanwhile × AllKeep pauses

  -- The scheduler's loop never raises, and takes a reachable store to a reachable store, where what
  -- happens in its sleeps does.
  pub run-Steps :
      (pauses : List Pause) (tasks : Tasks) (w : World)
      → AllKeep pauses
      → Steps n empty_db w.db
      → Ensures (λ _ t. Steps n empty_db t.db) (λ _. ⊥) (run repr cfg pauses tasks w)
  unfolding run
  run-Steps [] tasks w keep reached = returned reached
  run-Steps (pause ∷ pauses) tasks w keep reached =
      bind (λ alive t. Steps n empty_db t.db × Dispatched alive t.db) _ _ w
        (tick_lem tasks w reached)
        λ alive t h.
          then_ok _ _ t refl
            (run-Steps pauses (pause.left alive) (pause.meanwhile t) keep.1 (keep.0 t h.0))
