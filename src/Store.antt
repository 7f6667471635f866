-- ===== src/Store.antt =====
-- store.py: the SQLite store.
pub mod Tables
pub mod Observations
pub mod Runs
pub mod Retries
pub mod Verdicts
pub mod Records
