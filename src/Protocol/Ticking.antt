-- ===== src/Protocol/Ticking.antt =====
-- The statements of a tick, as steps of the store that never raise.
pub mod Retry
pub mod Sweep
pub mod Admit
pub mod Initial
pub mod Dispatch
pub mod Idle
