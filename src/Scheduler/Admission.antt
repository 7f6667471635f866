-- ===== src/Scheduler/Admission.antt =====
-- An admission keeps the charge of the storage within its threshold.
use ska_sdp_mini_control.Prelude.{
  ℕ, suc, ◌+◌, ◌≤◌, ◌≡◌, refl, true, false, ok, arith, Bool, Bool-cases, inl, inr, Option, none,
  some, List, [], ◌∷◌, ◌++◌, sum_where, ◌>>=◌, if◌then◌else◌,
}
use ska_sdp_mini_control.Models.{
  FilePath, Observation, obs_state_in, stored, deleting, inconsistent, planned, observing,
}
use ska_sdp_mini_control.Store.Tables.{Db, add_event}
use ska_sdp_mini_control.Store.Observations.{logical_storage, create_observation_auto, ms_name}
use ska_sdp_mini_control.Store.Observations.Outcomes
use ska_sdp_mini_control.Store.Observations.Outcomes.{ObsIds, create_observation_auto_lem}
use ska_sdp_mini_control.Storage.{
  World, Signature, Sizes, on_db, auxiliary_charged_storage, refresh, reuse, cached_sizes,
  mtime_signature, signature_eq,
}
use ska_sdp_mini_control.Scheduler.{Config, can_admit, new_observation}

sum_where-append_one :
    (p : Observation → Bool) (f : Observation → ℕ) (xs : List Observation) (x : Observation)
    → sum_where p f (xs ++ x ∷ []) ≡ sum_where p f xs + (if p x then f x else 0)
unfolding sum_where
sum_where-append_one p f [] x = ground arith
sum_where-append_one p f (y ∷ ys) x = ground (arith, sum_where-append_one p f ys x)

refresh_lem :
    (root : FilePath) (w : World)
    → (sizes : Sizes) × (t : World) × (refresh root w ≡ (ok sizes, t)) × (t.db ≡ w.db)
unfolding refresh
refresh_lem root w = (_, _, refl, refl)

-- The sizes of the two trees, as the cache or a walk gives them.
pub sizes_lem :
    (root : FilePath) (w : World)
    → (sizes : Sizes) × (t : World) × (auxiliary_charged_storage root false w ≡ (ok sizes, t))
      × (t.db ≡ w.db)
unfolding auxiliary_charged_storage
sizes_lem root w = go (cached_sizes root w)
  where
    go :
        (o : Option (Signature × Sizes))
        → (sizes : Sizes) × (t : World) × (reuse root (mtime_signature root w.files) o w
            ≡ (ok sizes, t))
          × (t.db ≡ w.db)
    go none = refresh_lem root w
    go (some (seen, sizes)) = elim (Bool-cases (signature_eq seen (mtime_signature root w.files))) [
      | inl fresh ↦ (sizes, w, rw fresh refl, refl)
      | inr stale ↦
          let (found, t, walked, kept) = refresh_lem root w in (found, t, rw stale walked, kept)
    ]

-- The store after an admission charges the reservation once.
charge_lem :
    (path : FilePath) (reserved : ℕ) (db : Db)
    → ObsIds db
    → ((logical_storage (create_observation_auto path reserved db).1).0 ≡ (logical_storage db).0)
      × ((logical_storage (create_observation_auto path reserved db).1).1
          ≡ (logical_storage db).1 + reserved)
unfolding logical_storage add_event
charge_lem path reserved db ids =
    let row =
      Outcomes.new_observation (suc db.obs_seq) (path ++ ms_name (suc db.obs_seq) ∷ []) reserved in
    rw (create_observation_auto_lem path reserved db ids) (
      ground (
        arith,
        sum_where-append_one (λ o. obs_state_in o.state (stored ∷ deleting ∷ inconsistent ∷ []))
            (λ o. o.size_bytes) db.observations row,
      ),
      ground (
        arith,
        sum_where-append_one (λ o. obs_state_in o.state (planned ∷ observing ∷ []))
            (λ o. o.reserved_bytes) db.observations row,
      ),
    )

-- When `can_admit` has said yes, the store after the admission of one observation, with the sizes
-- of quarantine and trash that it has read, is charged at most the threshold, where ids ascend.
pub can_admit-new_observation :
    (cfg : Config) (w : World) (quarantine trash : ℕ)
    → ObsIds w.db
    → (auxiliary_charged_storage cfg.data_root false w).0 ≡ ok (quarantine, trash)
    → (can_admit cfg w).0 ≡ ok true
    → (logical_storage (new_observation cfg (can_admit cfg w).1).1.db).0
        + (logical_storage (new_observation cfg (can_admit cfg w).1).1.db).1
        + quarantine
        + trash
      ≤ cfg.storage_threshold
unfolding can_admit new_observation on_db ◌>>=◌
can_admit-new_observation cfg w quarantine trash ids read admitted =
    let (sizes, t, runs, kept) = sizes_lem cfg.data_root w in
    let (used, reserved) =
      charge_lem (cfg.data_root ++ "observations" ∷ []) cfg.observation_reservation w.db ids in
    let same : sizes ≡ (quarantine, trash) = ground (arith, runs) in
    rw (runs, kept, used, reserved) (ground (arith, runs, same))
