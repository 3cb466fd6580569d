-- ===== src/Cli.antt =====
-- The command line: src/cCli.cpp.
pub mod Texts
pub mod Options
pub mod Chosen
mod Examples
