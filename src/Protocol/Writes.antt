-- ===== src/Protocol/Writes.antt =====
-- Each write of a transaction keeps the whole invariant.
use ska_sdp_mini_control.Prelude.{
  ℕ, suc, ◌+◌, ◌≤◌, ◌<◌, ◌≡◌, refl, Bool, false, [], ◌∷◌, ◌++◌, count, Memᴰ, ◌&&◌, update,
  update_all, find-mem, arith, Option, some, String,
}
use ska_sdp_mini_control.Prelude.Keyed.{IsAscending-mem, IsAscending-update, IsAscending-append}
use ska_sdp_mini_control.Models.{
  Observation, ProcessingRun, RunState, planned, queued, running, superseded,
}
use ska_sdp_mini_control.Models.Graph.{run_state_eq_iff}
use ska_sdp_mini_control.Store.Tables.{
  Db, Event, EntityState, EntityType, entity_eq, obs_state, run_state, run_in_state, run_has_id,
  run_row, obs_row, obs_in_state, obs_has_id, add_event,
}
use ska_sdp_mini_control.Store.Tables
use ska_sdp_mini_control.Store.Retries.{is_execution, state_is}
use ska_sdp_mini_control.Protocol.Invariant.{Inv, pending, Stored}
use ska_sdp_mini_control.Protocol.Rows
use ska_sdp_mini_control.Protocol.Rows.{RunUpdate, ObsUpdate}
use ska_sdp_mini_control.Protocol.Growth

module _ (n : ℕ) (db : Db) (inv : Inv n db) where
  pub run_mem :
      {rid : ℕ} {r : ProcessingRun} → run_row rid db ≡ some r → Memᴰ r db.runs × (r.id ≡ rid)
  run_mem {rid} {r} found =
      let (m, t) = find-mem (run_has_id rid) db.runs {x = r} found in (m, ground arith)

  pub obs_mem :
      {oid : ℕ} {o : Observation} → obs_row oid db ≡ some o → Memᴰ o db.observations × (o.id ≡ oid)
  obs_mem {oid} {o} found =
      let (m, t) = find-mem (obs_has_id oid) db.observations {x = o} found in (m, ground arith)

  -- A run's row and its event.
  pub Inv-run_written :
      (rid : ℕ) (from to : RunState) (f : ProcessingRun → ProcessingRun) (reason : String)
      → (r : ProcessingRun) → run_row rid db ≡ some r
      → r.state ≡ from
      → RunUpdate (run_in_state rid from) f
      → ((x : ProcessingRun) → (f x).state ≡ to)
      → (to ≡ queued → count (is_execution rid) db.events < n)
      → Inv n (
          add_event Tables.run rid
            (some (run_state from))
            (some (run_state to))
            reason
            (record db { runs = update (run_in_state rid from) f db.runs }))
  unfolding add_event
  Inv-run_written rid from to f reason r found at u new_state room = record {
    obs_ids = inv.obs_ids;
    run_ids =
        IsAscending-update (λ (x : ProcessingRun). x.id) (run_in_state rid from) f u.keeps_id 0
          db.runs db.run_seq inv.run_ids;
    refs = Rows.Refs-update_runs (run_in_state rid from) f u db.observations db.runs inv.refs;
    chain = Rows.Chain-update (run_in_state rid from) f u db.runs inv.chain;
    deletions = Growth.Deletions-append_event _ db.events db.observations _ (
        Rows.Deletions-update_runs (run_in_state rid from) f u db.observations db.runs db.events
          inv.deletions);
    reservations = inv.reservations;
    budget =
        Growth.Budget-move _ db.events n db.run_seq rid from to db.runs f inv.run_ids r
          (run_mem found).0 (ground (arith, run_state_eq_iff r.state from, (run_mem found).1))
          u.keeps_id new_state (refl, refl, refl, refl) room inv.budget;
    fresh =
        Growth.Fresh-append_event _ db.events db.run_seq
          (λ k lt. ground (
            arith,
            (run_mem found).1,
            IsAscending-mem (λ (x : ProcessingRun). x.id) 0 db.runs db.run_seq inv.run_ids
                (run_mem found).0,
          ))
          inv.fresh;
  }

  -- A mark in runs that leaves their states alone.
  pub Inv-run_marked :
      (p : ProcessingRun → Bool) (f : ProcessingRun → ProcessingRun)
      → RunUpdate p f
      → ((x : ProcessingRun) → (f x).state ≡ x.state)
      → Inv n (record db { runs = update p f db.runs })
  Inv-run_marked p f u same_state = record {
    obs_ids = inv.obs_ids;
    run_ids =
        IsAscending-update (λ (x : ProcessingRun). x.id) p f u.keeps_id 0 db.runs db.run_seq
          inv.run_ids;
    refs = Rows.Refs-update_runs p f u db.observations db.runs inv.refs;
    chain = Rows.Chain-update p f u db.runs inv.chain;
    deletions = Rows.Deletions-update_runs p f u db.observations db.runs db.events inv.deletions;
    reservations = inv.reservations;
    budget =
        update_all p f (λ x. count (is_execution x.id) db.events + pending x.state ≤ n) db.runs
          (λ x m t. rw (u.keeps_id x, same_state x) (inv.budget x m)) (λ x m t. inv.budget x m);
    fresh = inv.fresh;
  }

  -- An event that records no execution.
  pub Inv-event :
      (kind : EntityType) (entity : ℕ) (from to : Option EntityState) (reason : String)
      → state_is (run_state queued) from && state_is (run_state running) to ≡ false
      → Inv n (add_event kind entity from to reason db)
  unfolding add_event
  Inv-event kind entity from to reason other = record {
    obs_ids = inv.obs_ids;
    run_ids = inv.run_ids;
    refs = inv.refs;
    chain = inv.chain;
    deletions = Growth.Deletions-append_event _ db.events db.observations db.runs inv.deletions;
    reservations = inv.reservations;
    budget = Growth.Budget-append_event _ db.events n db.runs (λ k. ground arith) inv.budget;
    fresh = Growth.Fresh-append_event _ db.events db.run_seq (λ k lt. ground arith) inv.fresh;
  }

  -- An observation's row and its event.
  pub Inv-obs_written :
      (p : Observation → Bool) (f : Observation → Observation)
      → ObsUpdate db.observations db.runs db.events p f
      → Inv n (record db { observations = update p f db.observations })
  Inv-obs_written p f u = record {
    obs_ids =
        IsAscending-update (λ (x : Observation). x.id) p f u.keeps_id 0 db.observations db.obs_seq
          inv.obs_ids;
    run_ids = inv.run_ids;
    refs = Rows.Refs-update p f db.observations u inv.refs;
    chain = inv.chain;
    deletions = Rows.Deletions-update p f db.observations u inv.deletions;
    reservations = Rows.Reservations-update p f db.observations u inv.reservations;
    budget = inv.budget;
    fresh = inv.fresh;
  }

  -- A new observation.
  pub Inv-obs_inserted :
      (o : Observation)
      → o.id ≡ suc db.obs_seq
      → o.state ≡ planned
      → Inv n (record db { observations = db.observations ++ o ∷ []; obs_seq = o.id })
  Inv-obs_inserted o newest fresh_row = record {
    obs_ids =
        IsAscending-append (λ (x : Observation). x.id) 0 db.observations db.obs_seq o inv.obs_ids
          (omega arith);
    run_ids = inv.run_ids;
    refs = Rows.Refs-append o db.observations db.runs inv.refs;
    chain = inv.chain;
    deletions = Rows.Deletions-append o db.observations db.runs db.events fresh_row inv.deletions;
    reservations = Rows.Reservations-append o db.observations fresh_row inv.reservations;
    budget = inv.budget;
    fresh = inv.fresh;
  }

  -- A new run, queued, of an observation whose other runs are all superseded.
  pub Inv-run_inserted :
      (r : ProcessingRun)
      → r.id ≡ suc db.run_seq
      → r.state ≡ queued
      → 1 ≤ n
      → Stored db.observations r
      → ((x : ProcessingRun)
          → Memᴰ x db.runs
          → x.observation_id ≡ r.observation_id
          → (x.state ≡ superseded) × (x.attempt < r.attempt))
      → Inv n (record db { runs = db.runs ++ r ∷ []; run_seq = r.id })
  Inv-run_inserted r newest is_queued room owner over = record {
    obs_ids = inv.obs_ids;
    run_ids =
        IsAscending-append (λ (x : ProcessingRun). x.id) 0 db.runs db.run_seq r inv.run_ids
          (omega arith);
    refs = Growth.Refs-append_run r db.runs db.observations owner inv.refs;
    chain =
        Growth.Chain-append r db.runs
          (λ x m. omega (
            arith,
            IsAscending-mem (λ (y : ProcessingRun). y.id) 0 db.runs db.run_seq {x = x} inv.run_ids
                m,
          ))
          over inv.chain;
    deletions = Growth.Deletions-append_run r db.runs db.observations db.events inv.deletions;
    reservations = inv.reservations;
    budget = Growth.Budget-append r db.runs n db.events (ground (arith, inv.fresh r.id)) inv.budget;
    fresh = λ k lt. inv.fresh k (omega arith);
  }
