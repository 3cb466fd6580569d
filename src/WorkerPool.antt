-- ===== src/WorkerPool.antt =====
-- The master's pool of worker processes: src/cWorkerPool.cpp and src/cWorkerPool.hpp.
pub mod Processes
pub mod Spawning
pub mod Signals
pub mod Outcome
pub mod Started
pub mod ChildLog
pub mod SpawnLog
pub mod Separate
pub mod Passwords
mod Examples
