-- ===== src/WorkerConfig/Setup.antt =====
-- `WorkerConfig::setupWorkerParams` of src/cWorkerConfig.cpp.
use pquery.Prelude.{ℕ, ◌^◌, false, not, [], ◌++◌, Bytes, codes, pos, int64_max}
use pquery.IniReader.Reader.{IniReader, get}
use pquery.IniReader.Values.{
  DbType, mysql, pgsql, no_db, InfileType, sql, genlog, binlog, unknown, get_db_type,
  get_infile_type, get_boolean,
}
use pquery.WorkerConfig.Params.{BuildFlags, WorkerParams, dbtype_str}
use pquery.WorkerConfig.Checks.{Checked, valid, invalid, ◌>>=◌, ◌>>◌, refuse_if, get_checked}

-- The numbers of a section.
pub record Limits : Type 0 where
  pub port : ℕ
  pub threads : ℕ
  pub queries_per_thread : ℕ
  pub query_list_maxsize : ℕ
  pub timeout_secs : ℕ
  pub connect_timeout_secs : ℕ

unfoldable not_compiled : DbType → Bytes
unfolding dbtype_str
not_compiled db = codes "pquery is not compiled with support for " ++ dbtype_str db

unfoldable pub check_dbtype : BuildFlags → DbType → Checked (Unit {0})
unfolding not_compiled
check_dbtype flags no_db = invalid (codes "invalid or missing dbtype")
check_dbtype flags mysql = refuse_if (not flags.have_mysql) (not_compiled mysql)
check_dbtype flags pgsql = refuse_if (not flags.have_pgsql) (not_compiled pgsql)

-- The default port of each server.
unfoldable pub get_port : IniReader → Bytes → DbType → Checked ℕ
unfolding get_checked
get_port r section mysql =
    get_checked r section (codes "port") (pos 3306) (pos 1) (pos 65535) (2 ^ 16)
get_port r section pgsql =
    get_checked r section (codes "port") (pos 5432) (pos 1) (pos 65535) (2 ^ 16)
get_port r section no_db = valid 0

-- The body of the `try` block.
unfoldable pub get_limits : IniReader → Bytes → DbType → Checked Limits
unfolding get_port
get_limits r section db = do
  port ← get_port r section db
  threads ← get_checked r section (codes "threads") (pos 10) (pos 1) (pos 65535) (2 ^ 16)
  queries ←
      get_checked r section (codes "queries-per-thread") (pos 10000) (pos 0) int64_max (2 ^ 64)
  maxsize ←
      get_checked r section (codes "query-list-maxsize") (pos 1073741824) (pos 0) int64_max (2 ^ 64)
  timeout ← get_checked r section (codes "timeout") (pos 0) (pos 0) (pos 4294967295) (2 ^ 32)
  connect ←
      get_checked r section (codes "connect-timeout") (pos 60) (pos 0) (pos 4294967295) (2 ^ 32)
  valid (record {
    port = port;
    threads = threads;
    queries_per_thread = queries;
    query_list_maxsize = maxsize;
    timeout_secs = timeout;
    connect_timeout_secs = connect;
  })

abbrev pub not_implemented : DbType → Bytes
not_implemented pgsql =
    codes "infiletype GENLOG/BINLOG refers to MySQL log formats and is not "
    ++ codes "applicable to PostgreSQL; use infiletype = SQL"
not_implemented _ = codes "infiletype GENLOG/BINLOG is not implemented yet, only SQL is supported"

unfoldable pub check_infiletype : DbType → InfileType → Checked (Unit {0})
check_infiletype db sql = valid tt
check_infiletype db unknown = invalid (codes "invalid infiletype value")
check_infiletype db genlog = invalid (not_implemented db)
check_infiletype db binlog = invalid (not_implemented db)

-- The parameters with no check of their own, and those that are checked.
unfoldable pub params_of : IniReader → Bytes → DbType → InfileType → Limits → WorkerParams
params_of r section db infile limits = record {
  my_name = section;
  database = get r section (codes "database") (codes "test");
  dbtype = db;
  address = get r section (codes "address") (codes "localhost");
  socket = get r section (codes "socket") (codes "/var/run/mysqld/mysql.sock");
  username = get r section (codes "user") (codes "test");
  password = get r section (codes "password") [];
  infile = get r section (codes "infile") (codes "pquery.sql");
  infiletype = infile;
  logdir = get r section (codes "logdir") (codes "/tmp");
  port = limits.port;
  threads = limits.threads;
  queries_per_thread = limits.queries_per_thread;
  query_list_maxsize = limits.query_list_maxsize;
  verbose = get_boolean r section (codes "verbose") false;
  log_all_queries = get_boolean r section (codes "log-all-queries") false;
  log_failed_queries = get_boolean r section (codes "log-failed-queries") false;
  log_succeeded_queries = get_boolean r section (codes "log-succeded-queries") false;
  log_query_statistics = get_boolean r section (codes "log-query-statistics") false;
  log_query_duration = get_boolean r section (codes "log-query-duration") false;
  log_client_output = get_boolean r section (codes "log-client-output") false;
  log_query_numbers = get_boolean r section (codes "log-query-numbers") false;
  shuffle = get_boolean r section (codes "shuffle") false;
  timeout_secs = limits.timeout_secs;
  connect_timeout_secs = limits.connect_timeout_secs;
}

unfoldable pub setup_worker_params : BuildFlags → IniReader → Bytes → Checked WorkerParams
unfolding check_dbtype get_limits check_infiletype params_of
setup_worker_params flags r section = do
  let db = get_db_type r section (codes "dbtype") mysql
  check_dbtype flags db
  limits ← get_limits r section db
  let infile = get_infile_type r section (codes "infiletype") sql
  check_infiletype db infile
  valid (params_of r section db infile limits)
