-- ===== src/PQuery.antt =====
-- The master: src/cPQuery.cpp.
pub mod Master
pub mod Success
pub mod Startup
pub mod Redirects
pub mod Entry
mod Examples
