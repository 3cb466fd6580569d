-- ===== src/WorkerConfig.antt =====
-- The check of the configuration: src/cWorkerConfig.cpp, src/sWorkerParams.hpp and src/hCommon.hpp.
pub mod Params
pub mod Checks
pub mod Setup
pub mod Build
pub mod Ranges
pub mod Described
pub mod Accepted
pub mod Sections
pub mod Decimals
mod Examples
