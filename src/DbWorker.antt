-- ===== src/DbWorker.antt =====
-- A worker and its threads: src/cDbWorker.cpp, src/cDatabase.cpp and src/cInfileParser.cpp.
pub mod Counters
pub mod Thread
pub mod Worker
pub mod Streaks
pub mod Bounded
pub mod Replays
pub mod Returns
pub mod Logs
pub mod Unlogged
pub mod Quiet
pub mod Untroubled
pub mod Opened
pub mod Connections
pub mod Report
mod Examples
