-- ===== src/Protocol/Ticking/Admit.antt =====
-- The admission of a tick.
use ska_sdp_mini_control.Prelude.{
  ℕ, suc, ◌≤◌, ◌≡◌, inl, inr, refl, ap, arith, true, false, Bool, Bool-cases, ok, List, [], ◌∷◌,
  ◌++◌, ◌>>=◌, any, select, leb, ◌+◌,
}
use ska_sdp_mini_control.Prelude.Ensures.{Ensures, returned, bind, bind_ok}
use ska_sdp_mini_control.Models.{Observation, observing, planned}
use ska_sdp_mini_control.Store.Tables.{Db, add_event}
use ska_sdp_mini_control.Store.Observations.{logical_storage, list_observations, ms_name}
use ska_sdp_mini_control.Store.Observations.Outcomes
use ska_sdp_mini_control.Store.Observations.Outcomes.{create_observation_auto_lem}
use ska_sdp_mini_control.Storage.{World}
use ska_sdp_mini_control.Storage.Rules.{on_db_returns}
use ska_sdp_mini_control.Scheduler.{Config, can_admit, campaign_has_capacity, new_observation}
use ska_sdp_mini_control.Scheduler.Admission.{sizes_lem}
use ska_sdp_mini_control.Scheduler.Tick.{admit_one, admission}
use ska_sdp_mini_control.Protocol.Invariant.{is_under_way}
use ska_sdp_mini_control.Protocol.Steps.{Steps-Inv, next, admit}
use ska_sdp_mini_control.Protocol.Guarantees.{empty_db-Inv}
use ska_sdp_mini_control.Protocol.Kept.{InReach}

none_selected :
    {A : Type 0} (p : A → Bool) (xs : List A)
    → any (λ _. true) (select p xs) ≡ false
    → any p xs ≡ false
unfolding any select
none_selected p [] h = refl
none_selected p (x ∷ xs) h = ground (arith, none_selected p xs)

-- The check of the room answers, and leaves the store as it was.
can_admit-answers :
    (cfg : Config) (w : World)
    → (room : Bool) × (t : World) × (can_admit cfg w ≡ (ok room, t)) × (t.db ≡ w.db)
unfolding can_admit ◌>>=◌
can_admit-answers cfg w =
    let (sizes, t, runs, kept) = sizes_lem cfg.data_root w in
    (
      leb
          ((logical_storage w.db).0
            + (logical_storage w.db).1
            + sizes.0
            + sizes.1
            + cfg.observation_reservation)
          cfg.storage_threshold,
      t,
      rw runs refl,
      kept,
    )

-- How an admission ends: with the same rows, or with one more, where none was PLANNED or OBSERVING.
pub data Admitted (os : List Observation) : List ℕ → List Observation → Type 0 where
  refused : Admitted os [] os
  admitted :
      (o : Observation) → any is_under_way os ≡ false → Admitted os (o.id ∷ []) (os ++ o ∷ [])

-- The store is reachable, with the rows that the admission leaves.
abbrev pub Admits : ℕ → World → List ℕ → World → Type 0
Admits n w ids t = InReach n t × Admitted w.db.observations ids t.db.observations

module _ (n : ℕ) (room : 1 ≤ n) (cfg : Config) {E : World → Type 0} where
  new_observation-Admits :
      (w : World)
      → any is_under_way w.db.observations ≡ false
      → InReach n w
      → Ensures (λ oid t. Admits n w (oid ∷ []) t) E (new_observation cfg w)
  unfolding new_observation add_event
  new_observation-Admits w idle reached =
      let inv = Steps-Inv room reached (empty_db-Inv n) in
      let root = cfg.data_root ++ "observations" ∷ [] in
      let e = create_observation_auto_lem root cfg.observation_reservation w.db inv.obs_ids in
      let row =
        Outcomes.new_observation (suc w.db.obs_seq) (root ++ ms_name (suc w.db.obs_seq) ∷ [])
          cfg.observation_reservation in
      on_db_returns (λ oid t. Admits n w (oid ∷ []) t) E _ w (suc w.db.obs_seq) (ap (λ r. r.0) e)
        (next reached (admit w.db root cfg.observation_reservation idle), rw e (admitted row idle))

  admit_one-Admits :
      (w : World)
      → any is_under_way w.db.observations ≡ false
      → InReach n w
      → Ensures (λ ids t. Admits n w ids t) E (admit_one cfg w)
  unfolding admit_one
  admit_one-Admits w idle reached =
      let (has_room, t, answers, kept) = can_admit-answers cfg w in
      bind_ok _ _ w answers (elim (Bool-cases has_room) [
        | inl much ↦ rw much (
            bind (λ oid u. Admits n t (oid ∷ []) u) _ _ t
              (new_observation-Admits t (rw kept idle) (rw kept reached))
              λ oid u h. returned (h.0, rw (← ap (λ (d : Db). d.observations) kept) h.1))
        | inr little ↦ rw little (returned (rw kept (reached, refused)))
      ])

  -- The admission never raises.
  pub admission-Admits :
      (w : World) → InReach n w → Ensures (λ ids t. Admits n w ids t) E (admission cfg w)
  unfolding admission list_observations
  admission-Admits w reached = bind_ok _ _ w refl (
      bind_ok _ _ w refl
        (elim (Bool-cases (any (λ _. true) (list_observations (observing ∷ planned ∷ []) w.db))) [
          | inl busy ↦ rw busy (returned (reached, refused))
          | inr idle ↦ rw idle (elim (Bool-cases (campaign_has_capacity cfg w.db)) [
            | inl more ↦
                rw more
                  (admit_one-Admits w (none_selected is_under_way w.db.observations idle) reached)
            | inr full ↦ rw full (returned (reached, refused))
          ])
        ]))
