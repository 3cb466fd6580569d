-- ===== src/WorkerConfig/Described.antt =====
-- The sections that `WorkerConfig::setupWorkerParams` of src/cWorkerConfig.cpp is to accept, and their
-- parameters, key by key: where the value of each comes from, with its default.
use pquery.Prelude.{true, false, ◌≡◌, [], Bytes, codes}
use pquery.IniReader.Reader.{IniReader, get}
use pquery.IniReader.Values.{
  DbType, mysql, pgsql, no_db, sql, get_db_type, get_infile_type, get_boolean,
}
use pquery.WorkerConfig.Params.{BuildFlags, WorkerParams}
use pquery.WorkerConfig.Ranges.{InRange, default_port}
use pquery.WorkerConfig.Setup.{Limits}

abbrev pub Supported : BuildFlags → DbType → Type 0
Supported flags mysql = flags.have_mysql ≡ true
Supported flags pgsql = flags.have_pgsql ≡ true
Supported flags no_db = ⊥

pub record LimitsOf (r : IniReader) (section : Bytes) (db : DbType) (l : Limits) : Type 0 where
  pub port : InRange r section (codes "port") (default_port db) 1 65535 l.port
  pub threads : InRange r section (codes "threads") 10 1 65535 l.threads
  pub queries :
      InRange r section
        (codes "queries-per-thread")
        10000
        0
        9223372036854775807
        l.queries_per_thread
  pub maxsize :
      InRange r section
        (codes "query-list-maxsize")
        1073741824
        0
        9223372036854775807
        l.query_list_maxsize
  pub timeout : InRange r section (codes "timeout") 0 0 4294967295 l.timeout_secs
  pub connect : InRange r section (codes "connect-timeout") 60 0 4294967295 l.connect_timeout_secs

abbrev pub numbers_of : WorkerParams → Limits
numbers_of p = record {
  port = p.port;
  threads = p.threads;
  queries_per_thread = p.queries_per_thread;
  query_list_maxsize = p.query_list_maxsize;
  timeout_secs = p.timeout_secs;
  connect_timeout_secs = p.connect_timeout_secs;
}

pub record TextsOf (r : IniReader) (section : Bytes) (p : WorkerParams) : Type 0 where
  pub address : p.address ≡ get r section (codes "address") (codes "localhost")
  pub username : p.username ≡ get r section (codes "user") (codes "test")
  pub password : p.password ≡ get r section (codes "password") []
  pub socket : p.socket ≡ get r section (codes "socket") (codes "/var/run/mysqld/mysql.sock")
  pub database : p.database ≡ get r section (codes "database") (codes "test")
  pub infile : p.infile ≡ get r section (codes "infile") (codes "pquery.sql")
  pub logdir : p.logdir ≡ get r section (codes "logdir") (codes "/tmp")

-- All are off by default. The key of `log_succeeded_queries` is as the code spells it.
pub record SwitchesOf (r : IniReader) (section : Bytes) (p : WorkerParams) : Type 0 where
  pub verbose : p.verbose ≡ get_boolean r section (codes "verbose") false
  pub shuffle : p.shuffle ≡ get_boolean r section (codes "shuffle") false
  pub all_queries : p.log_all_queries ≡ get_boolean r section (codes "log-all-queries") false
  pub succeeded :
      p.log_succeeded_queries ≡ get_boolean r section (codes "log-succeded-queries") false
  pub failed : p.log_failed_queries ≡ get_boolean r section (codes "log-failed-queries") false
  pub statistics :
      p.log_query_statistics ≡ get_boolean r section (codes "log-query-statistics") false
  pub duration : p.log_query_duration ≡ get_boolean r section (codes "log-query-duration") false
  pub output : p.log_client_output ≡ get_boolean r section (codes "log-client-output") false
  pub query_numbers : p.log_query_numbers ≡ get_boolean r section (codes "log-query-numbers") false

-- What a section must have, with the parameters that it gives.
pub record Accepted (flags : BuildFlags) (r : IniReader) (section : Bytes) (p : WorkerParams)
    : Type 0 where
  pub name : p.my_name ≡ section
  pub server : p.dbtype ≡ get_db_type r section (codes "dbtype") mysql
  pub supported : Supported flags p.dbtype
  pub numbers : LimitsOf r section p.dbtype (numbers_of p)
  pub file_type : get_infile_type r section (codes "infiletype") sql ≡ sql
  pub only_sql : p.infiletype ≡ sql
  pub texts : TextsOf r section p
  pub switches : SwitchesOf r section p
