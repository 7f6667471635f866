-- ===== src/Protocol/Timeline.antt =====
-- The log against the tables: a reader of `timeline` who follows the moves of a row from its
-- creation, and takes only moves that models.py allows, arrives at the state of the row.
pub mod Told
pub mod Moves
pub mod Methods
pub mod Verdicts
use ska_sdp_mini_control.Prelude.{
  ℕ, ◌≡◌, refl, true, false, Bool, Bool-cases, inl, inr, none, some, Option, arith, List, [], ◌∷◌,
  ◌++◌, select, ◌&&◌, ◌==◌, if◌then◌else◌,
}
use ska_sdp_mini_control.Models.{
  obs_state_eq, obs_state_in, obs_transitions, run_state_eq, run_state_in, run_transitions, planned,
  queued,
}
use ska_sdp_mini_control.Store.Tables.{
  Event, EntityType, EntityState, obs_state, run_state, entity_eq,
}
use ska_sdp_mini_control.Store.Retries.{state_is}

-- A row is created as PLANNED or QUEUED, and moves along the tables of models.py.
unfoldable pub is_legal : Option EntityState → EntityState → Bool
is_legal none (obs_state to) = obs_state_eq to planned
is_legal none (run_state to) = run_state_eq to queued
is_legal (some (obs_state from)) (obs_state to) = obs_state_in to (obs_transitions from)
is_legal (some (run_state from)) (run_state to) = run_state_in to (run_transitions from)
is_legal _ _ = false

abbrev pub same_state : Option EntityState → Option EntityState → Bool
same_state none none = true
same_state none (some t) = false
same_state (some s) t = state_is s t

abbrev pub move_to :
    Option EntityState → Option EntityState → Option EntityState → Option (Option EntityState)
move_to at from none = some at
move_to at from (some to) = if same_state from at && is_legal at to then some (some to) else none

-- One event, read by a reader who is at the state `at`, or at none before the row is there; a note
-- moves nothing, and a move that does not start at `at` or is not allowed stops the reader.
unfoldable pub follow : Option EntityState → Event → Option (Option EntityState)
follow at e = move_to at e.from_state e.to_state

abbrev pub follow_on : Option (Option EntityState) → Event → Option (Option EntityState)
follow_on none e = none
follow_on (some at) e = follow at e

-- The events, one after the other.
unfoldable pub replay : Option (Option EntityState) → List Event → Option (Option EntityState)
replay at [] = at
replay at (e ∷ es) = replay (follow_on at e) es

-- The test of Store.events_for
abbrev pub is_about : EntityType → ℕ → Event → Bool
is_about kind k e = entity_eq e.entity_type kind && e.entity_id == k

-- Where the reader of a row's timeline arrives.
unfoldable pub told : EntityType → ℕ → List Event → Option (Option EntityState)
told kind k es = replay (some none) (select (is_about kind k) es)

replay-append_one :
    (at : Option (Option EntityState)) (es : List Event) (e : Event)
    → replay at (es ++ e ∷ []) ≡ follow_on (replay at es) e
unfolding replay
replay-append_one at [] e = refl
replay-append_one at (d ∷ es) e = replay-append_one (follow_on at d) es e

select-append_one :
    {A : Type 0} (p : A → Bool) (xs : List A) (x : A)
    → select p (xs ++ x ∷ []) ≡ (if p x then select p xs ++ x ∷ [] else select p xs)
unfolding select
select-append_one p [] x = ground arith
select-append_one p (y ∷ ys) x = ground (arith, select-append_one p ys x)

-- The newest event is read by its own row's readers.
pub told-append_one :
    (kind : EntityType) (k : ℕ) (es : List Event) (e : Event)
    → told kind k (es ++ e ∷ [])
      ≡ (if is_about kind k e then follow_on (told kind k es) e else told kind k es)
unfolding told
told-append_one kind k es e = elim (Bool-cases (is_about kind k e)) [
  | inl about ↦ rw (select-append_one (is_about kind k) es e, about, replay-append_one) refl
  | inr other ↦ rw (select-append_one (is_about kind k) es e, other) refl
]
