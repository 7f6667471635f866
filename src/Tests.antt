-- ===== src/Tests.antt =====
-- Runs of the models on concrete stores, and the theorems applied to them.
pub mod History
pub mod Reachable
pub mod Operations
pub mod Directory
pub mod Admission
pub mod Recovery
pub mod Workers
pub mod Commands
pub mod Runners
pub mod Timelines
pub mod Fakes
pub mod Endings
