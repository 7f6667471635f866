-- ===== src/Protocol/Growth.antt =====
-- Appended runs and events, and the retry budget.
use ska_sdp_mini_control.Prelude.{
  ℕ, ◌+◌, ◌≤◌, ◌<◌, ◌≡◌, inl, inr, true, false, List, [], ◌∷◌, ◌++◌, count, Memᴰ, update,
  update_all, append_all, mem-append_one, mem-append_old, arith, count-append_one, some,
}
use ska_sdp_mini_control.Prelude.Keyed.{IsAscending, mem_unique}
use ska_sdp_mini_control.Models.{Observation, ProcessingRun, RunState, queued, running, superseded}
use ska_sdp_mini_control.Store.Tables.{Event, run_state, run_in_state}
use ska_sdp_mini_control.Store.Tables
use ska_sdp_mini_control.Store.Retries.{is_execution}
use ska_sdp_mini_control.Protocol.Invariant.{
  pending, Stored, Refs, Chain, Permit, Deletions, Budget, Fresh,
}

-- One more run.
module _ (c : ProcessingRun) (rs : List ProcessingRun) where
  pub Refs-append_run : (os : List Observation) → Stored os c → Refs os rs → Refs os (rs ++ c ∷ [])
  Refs-append_run os new h = append_all (Stored os) rs c h new

  -- The run is the newest of its observation, and what it follows is superseded.
  pub Chain-append :
      ((r : ProcessingRun) → Memᴰ r rs → r.id < c.id)
      → ((r : ProcessingRun)
          → Memᴰ r rs
          → r.observation_id ≡ c.observation_id
          → (r.state ≡ superseded) × (r.attempt < c.attempt))
      → Chain rs
      → Chain (rs ++ c ∷ [])
  Chain-append newest over h a b ma mb same lt = elim (mem-append_one rs ma) [
    | inl oa ↦ elim (mem-append_one rs mb) [
      | inl ob ↦ h a b oa ob same lt
      | inr eb ↦ ground (arith, over a oa)
    ]
    | inr ea ↦ elim (mem-append_one rs mb) [
      | inl ob ↦ absurd (ground (arith, newest b ob))
      | inr eb ↦ absurd (ground arith)
    ]
  ]

  pub Permit-append : (oid : ℕ) → Permit rs oid → Permit (rs ++ c ∷ []) oid
  Permit-append oid (r, m, owner, permits) = (r, mem-append_old rs c m, owner, permits)

  pub Deletions-append_run :
      (os : List Observation) (es : List Event)
      → Deletions os rs es
      → Deletions os (rs ++ c ∷ []) es
  Deletions-append_run os es h o m = (
    λ e. Permit-append o.id ((h o m).0 e),
    λ e. elim ((h o m).1 e) [ inl permit ↦ inl (Permit-append o.id permit) | inr drop ↦ inr drop ],
  )

  pub Budget-append :
      (n : ℕ) (es : List Event)
      → count (is_execution c.id) es + pending c.state ≤ n
      → Budget n rs es
      → Budget n (rs ++ c ∷ []) es
  Budget-append n es new h =
      append_all (λ r. count (is_execution r.id) es + pending r.state ≤ n) rs c h new

-- One more event.
module _ (e : Event) (es : List Event) where
  pub Deletions-append_event :
      (os : List Observation) (rs : List ProcessingRun)
      → Deletions os rs es
      → Deletions os rs (es ++ e ∷ [])
  Deletions-append_event os rs h o m = (
    (h o m).0,
    λ s. elim ((h o m).1 s) [
      | inl permit ↦ inl permit
      | inr (x, mx, d) ↦ inr (x, mem-append_old es e mx, d)
    ],
  )

  -- The event is no execution of a run.
  count_other :
      (rid : ℕ)
      → is_execution rid e ≡ false
      → count (is_execution rid) (es ++ e ∷ []) ≡ count (is_execution rid) es
  unfolding count
  count_other rid no_start = rw (count-append_one (is_execution rid) es e) (ground arith)

  pub Budget-append_event :
      (n : ℕ) (rs : List ProcessingRun)
      → ((rid : ℕ) → is_execution rid e ≡ false)
      → Budget n rs es
      → Budget n rs (es ++ e ∷ [])
  Budget-append_event n rs other h r m = omega (arith, h r m, count_other r.id (other r.id))

  pub Fresh-append_event :
      (seq : ℕ)
      → ((rid : ℕ) → seq < rid → is_execution rid e ≡ false)
      → Fresh seq es
      → Fresh seq (es ++ e ∷ [])
  Fresh-append_event seq other h rid lt = omega (arith, h rid lt, count_other rid (other rid lt))

  -- The number of executions that a move adds.
  abbrev starts : RunState → RunState → ℕ
  starts queued running = 1
  starts _ _ = 0

  count_move :
      (rid : ℕ) (from to : RunState)
      → (e.entity_type ≡ Tables.run)
        × (e.entity_id ≡ rid)
        × (e.from_state ≡ some (run_state from))
        × (e.to_state ≡ some (run_state to))
      → count (is_execution rid) (es ++ e ∷ []) ≡ count (is_execution rid) es + starts from to
  unfolding count
  count_move rid from to logged = rw (count-append_one (is_execution rid) es e) (ground arith)

  -- A run's move, with its event.
  pub Budget-move :
      (n hi rid : ℕ) (from to : RunState) (rs : List ProcessingRun)
      (f : ProcessingRun → ProcessingRun)
      → IsAscending (λ (r : ProcessingRun). r.id) 0 rs hi
      → (moved : ProcessingRun) → Memᴰ moved rs
      → run_in_state rid from moved ≡ true
      → ((r : ProcessingRun) → (f r).id ≡ r.id)
      → ((r : ProcessingRun) → (f r).state ≡ to)
      → (e.entity_type ≡ Tables.run)
        × (e.entity_id ≡ rid)
        × (e.from_state ≡ some (run_state from))
        × (e.to_state ≡ some (run_state to))
      → (to ≡ queued → count (is_execution rid) es < n)
      → Budget n rs es
      → Budget n (update (run_in_state rid from) f rs) (es ++ e ∷ [])
  unfolding count
  Budget-move n hi rid from to rs f asc moved mm pm same_id new_state logged room h =
      update_all (run_in_state rid from) f
        (λ r. count (is_execution r.id) (es ++ e ∷ []) + pending r.state ≤ n) rs hit miss
    where
      hit :
          (r : ProcessingRun)
          → Memᴰ r rs
          → run_in_state rid from r ≡ true
          → count (is_execution (f r).id) (es ++ e ∷ []) + pending (f r).state ≤ n
      hit r m t =
          let same : r.id ≡ rid = ground arith in
          let at : r.state ≡ from = ground arith in
          rw (same_id r, new_state r, same, count_move rid from to logged)
            (ground (arith, rw same at (h r m), at, room))

      miss :
          (r : ProcessingRun)
          → Memᴰ r rs
          → run_in_state rid from r ≡ false
          → count (is_execution r.id) (es ++ e ∷ []) + pending r.state ≤ n
      miss r m t = omega (
        arith,
        h r m,
        count_other r.id (
            ground (
              arith,
              λ (q : r.id ≡ moved.id). mem_unique (λ (r : ProcessingRun). r.id) 0 rs hi asc m mm q,
            )),
      )
