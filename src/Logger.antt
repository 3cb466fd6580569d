-- ===== src/Logger.antt =====
-- The log files: src/cLogger.cpp.
pub mod Stream
pub mod Operations
pub mod Calls
pub mod Journal
pub mod Writes
pub mod Refines
pub mod Texts
pub mod Untouched
mod Examples
