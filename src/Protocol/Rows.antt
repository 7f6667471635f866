-- ===== src/Protocol/Rows.antt =====
-- Each statement on one table keeps the parts of the invariant that read the table.
use ska_sdp_mini_control.Prelude.{
  ℕ, ◌≡◌, ◌≢◌, ◌⊎◌, inl, inr, Bool, true, List, [], ◌∷◌, ◌++◌, Memᴰ, update, update_all, append_all,
  apply_if, mem-update, update-mem, mem-append_old, arith,
}
use ska_sdp_mini_control.Models.{
  Observation, ProcessingRun, planned, observing, deleting, deleted, superseded,
}
use ska_sdp_mini_control.Store.Tables.{Event}
use ska_sdp_mini_control.Protocol.Invariant.{
  was_stored, permits_deletion, Stored, Refs, Chain, Permit, Drop, Deletions, Reservations,
}

-- An UPDATE of observations that fits the protocol.
pub record ObsUpdate (os : List Observation) (rs : List ProcessingRun) (es : List Event)
    (p : Observation → Bool) (f : Observation → Observation) : Type 0 where
  pub keeps_id : (o : Observation) → (f o).id ≡ o.id
  pub keeps_stored :
      (o : Observation) → p o ≡ true → was_stored o.state ≡ true → was_stored (f o).state ≡ true
  pub permitted :
      (o : Observation) → Memᴰ o os → p o ≡ true → (f o).state ≡ deleting → Permit rs o.id
  pub dropped :
      (o : Observation)
      → Memᴰ o os
      → p o ≡ true
      → (f o).state ≡ deleted
      → Permit rs o.id ⊎ Drop es o.id
  pub released :
      (o : Observation)
      → p o ≡ true
      → (o.state ≢ planned → o.state ≢ observing → o.reserved_bytes ≡ 0)
      → (f o).state ≢ planned
      → (f o).state ≢ observing
      → (f o).reserved_bytes ≡ 0

module _ {rs : List ProcessingRun} {es : List Event} (p : Observation → Bool)
    (f : Observation → Observation) (os : List Observation) (u : ObsUpdate os rs es p f) where
  pub Refs-update : Refs os rs → Refs (update p f os) rs
  Refs-update h r m =
      let (o, mo, e, st) = h r m in
      (
        apply_if p f o,
        update-mem p f os mo,
        ground (arith, u.keeps_id o),
        ground (arith, u.keeps_stored o),
      )

  pub Deletions-update : Deletions os rs es → Deletions (update p f os) rs es
  Deletions-update h =
      update_all p f
        (λ o.
          (o.state ≡ deleting → Permit rs o.id)
          × (o.state ≡ deleted → Permit rs o.id ⊎ Drop es o.id))
        os (λ o m t. rw (u.keeps_id o) (u.permitted o m t, u.dropped o m t)) (λ o m t. h o m)

  pub Reservations-update : Reservations os → Reservations (update p f os)
  Reservations-update h =
      update_all p f (λ o. o.state ≢ planned → o.state ≢ observing → o.reserved_bytes ≡ 0) os
        (λ o m t. u.released o t (h o m)) (λ o m t. h o m)

pub Refs-append :
    (o : Observation) (os : List Observation) (rs : List ProcessingRun)
    → Refs os rs
    → Refs (os ++ o ∷ []) rs
Refs-append o os rs h r m = let (x, mx, e, st) = h r m in (x, mem-append_old os o mx, e, st)

-- A new observation is PLANNED.
pub Deletions-append :
    (o : Observation) (os : List Observation) (rs : List ProcessingRun) (es : List Event)
    → o.state ≡ planned
    → Deletions os rs es
    → Deletions (os ++ o ∷ []) rs es
Deletions-append o os rs es new h =
    append_all
      (λ o.
        (o.state ≡ deleting → Permit rs o.id) × (o.state ≡ deleted → Permit rs o.id ⊎ Drop es o.id))
      os o h (λ e. cc, λ e. cc)

pub Reservations-append :
    (o : Observation) (os : List Observation)
    → o.state ≡ planned
    → Reservations os
    → Reservations (os ++ o ∷ [])
Reservations-append o os new h =
    append_all (λ o. o.state ≢ planned → o.state ≢ observing → o.reserved_bytes ≡ 0) os o h
      (λ a b. absurd (a new))

-- An UPDATE of runs that fits the protocol.
pub record RunUpdate (p : ProcessingRun → Bool) (f : ProcessingRun → ProcessingRun) : Type 0 where
  pub keeps_id : (r : ProcessingRun) → (f r).id ≡ r.id
  pub keeps_owner : (r : ProcessingRun) → (f r).observation_id ≡ r.observation_id
  pub keeps_attempt : (r : ProcessingRun) → (f r).attempt ≡ r.attempt
  pub live : (r : ProcessingRun) → p r ≡ true → r.state ≢ superseded
  pub undecided :
      (r : ProcessingRun)
      → p r ≡ true
      → permits_deletion r.state ≡ true
      → permits_deletion (f r).state ≡ true

module _ (p : ProcessingRun → Bool) (f : ProcessingRun → ProcessingRun) (u : RunUpdate p f) where
  pub Refs-update_runs :
      (os : List Observation) (rs : List ProcessingRun) → Refs os rs → Refs os (update p f rs)
  Refs-update_runs os rs h =
      update_all p f (Stored os) rs (λ r m t. rw (u.keeps_owner r) (h r m)) (λ r m t. h r m)

  pub Chain-update : (rs : List ProcessingRun) → Chain rs → Chain (update p f rs)
  Chain-update rs h a b ma mb same lt =
      let (x, mx, ex) = mem-update p f rs ma in
      let (y, my, ey) = mem-update p f rs mb in
      ground (
        arith,
        h x y mx my,
        u.keeps_id x,
        u.keeps_id y,
        u.keeps_owner x,
        u.keeps_owner y,
        u.keeps_attempt x,
        u.keeps_attempt y,
        u.live x,
      )

  pub Permit-update :
      (rs : List ProcessingRun) (oid : ℕ) → Permit rs oid → Permit (update p f rs) oid
  Permit-update rs oid (r, m, owner, permits) = (
    apply_if p f r,
    update-mem p f rs m,
    ground (arith, u.keeps_owner r),
    ground (arith, u.undecided r),
  )

  pub Deletions-update_runs :
      (os : List Observation) (rs : List ProcessingRun) (es : List Event)
      → Deletions os rs es
      → Deletions os (update p f rs) es
  Deletions-update_runs os rs es h o m = (
    λ e. Permit-update rs o.id ((h o m).0 e),
    λ e. elim ((h o m).1 e) [
      | inl permit ↦ inl (Permit-update rs o.id permit)
      | inr drop ↦ inr drop
    ],
  )
