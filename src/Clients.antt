-- ===== src/Clients.antt =====
-- The classes over the client libraries: src/cMysqlDatabase.cpp, src/cPgsqlDatabase.cpp and
-- src/cPgsqlDatabase.hpp.
pub mod Store
pub mod PgResult
pub mod Ownership
pub mod MysqlOutput
pub mod MysqlFreed
pub mod MysqlConnection
pub mod MysqlClosed
pub mod MysqlClient
pub mod MysqlWorker
pub mod Rows
pub mod PgsqlOutput
pub mod Settings
pub mod Conninfo
pub mod PgsqlErrors
pub mod PgsqlClient
pub mod PgsqlWorker
pub mod PgsqlCleared
mod PgsqlTests
mod Examples
