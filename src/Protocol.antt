-- ===== src/Protocol.antt =====
-- The rules that the controller and its operators keep when they call store.py, and what follows
-- for every store that they reach.
pub mod Invariant
pub mod Rows
pub mod Growth
pub mod Writes
pub mod Moves
pub mod Verdicts
pub mod Creation
pub mod Steps
pub mod Guarantees
pub mod Operators
pub mod OneAtATime
pub mod Timeline
pub mod Kept
pub mod Recovery
pub mod Workers
pub mod Observing
pub mod Processing
pub mod Ticking
