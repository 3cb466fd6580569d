-- ===== src/WorkerConfig/Params.antt =====
-- The parameters of a worker, src/sWorkerParams.hpp, and the helpers of src/hCommon.hpp.
use pquery.Prelude.{ℕ, Bool, Bytes, codes, map, to_lower}
use pquery.IniReader.Values.{DbType, mysql, pgsql, no_db, InfileType, sql, genlog, binlog, unknown}

-- What the build has support for: HAVE_MYSQL and HAVE_PGSQL.
pub record BuildFlags : Type 0 where
  pub have_mysql : Bool
  pub have_pgsql : Bool

pub record WorkerParams : Type 0 where
  pub my_name : Bytes
  pub database : Bytes
  pub dbtype : DbType
  pub address : Bytes
  pub socket : Bytes
  pub username : Bytes
  pub password : Bytes
  pub infile : Bytes
  pub infiletype : InfileType
  pub logdir : Bytes
  pub port : ℕ
  pub threads : ℕ
  pub queries_per_thread : ℕ
  pub query_list_maxsize : ℕ
  pub verbose : Bool
  pub log_all_queries : Bool
  pub log_failed_queries : Bool
  pub log_succeeded_queries : Bool
  pub log_query_statistics : Bool
  pub log_query_duration : Bool
  pub log_client_output : Bool
  pub log_query_numbers : Bool
  pub shuffle : Bool
  pub timeout_secs : ℕ
  pub connect_timeout_secs : ℕ

unfoldable pub infiletype_str : InfileType → Bytes
infiletype_str sql = codes "SQL"
infiletype_str genlog = codes "General Log"
infiletype_str binlog = codes "Binary Log"
infiletype_str unknown = codes "UNKNOWN TYPE"

unfoldable pub to_lower_case : Bytes → Bytes
to_lower_case = map to_lower

unfoldable pub dbtype_str : DbType → Bytes
dbtype_str mysql = codes "MySQL"
dbtype_str pgsql = codes "PostgreSQL"
dbtype_str no_db = codes "UNKNOWN"
