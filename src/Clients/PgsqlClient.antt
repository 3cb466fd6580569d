-- ===== src/Clients/PgsqlClient.antt =====
-- The class `PgsqlDatabase` of src/cPgsqlDatabase.cpp behind the interface of `Database` that the
-- threads of a worker use.
use pquery.Prelude.{ℕ, Bool, true, false, List, [], Option, none, some, Bytes, codes}
use pquery.WorkerConfig.Params.{WorkerParams}
use pquery.DbWorker.Thread.{Client, ThreadState}
use pquery.DbWorker.Logs.{thread_start}
use pquery.Logger.Calls.{Call}
use pquery.DbWorker.Report.{test_pgsql_connection}
use pquery.Logger.Stream.{Files}
use pquery.Clients.Store.{Store, empty_store}
use pquery.Clients.PgResult.{
  ExecStatus, empty_query, tuples_ok, PgResult, no_result, perform_real_query, reset,
}
use pquery.Clients.PgsqlOutput.{
  Values, process_query_output, conninfo, get_error_string, get_affected_rows, get_host_info,
  get_server_version,
}

-- libpq with its server, and the clock. `exec` gives `none` where `PQexec` gives a null pointer, and
-- what the other functions read of a result depends on it alone.
pub record PqLibrary : Type 1 where
  pub Server : Type 0
  pub Reply : Type 0
  pub connectdb : Bytes → Server → Bool × Server
  pub exec : Bytes → Server → Option Reply × Server
  pub result_status : Reply → ExecStatus
  pub tuples : Reply → List Values
  pub cmd_tuples : Reply → Bytes
  pub error_message : Server → Bytes
  pub res_status : ExecStatus → Bytes
  pub query_duration_ms : Server → Bytes
  -- `PQgetvalue` in the first row and column.
  pub first_value : Reply → Bytes
  pub host : Server → Bytes
  pub port : Server → Bytes
  pub server_version : Server → ℕ

module _ (L : PqLibrary) where
  -- The object, with the server and the results that are allocated. `reply` is what the pointer of
  -- `result` points to, and `none` where it is null.
  pub record PgsqlDatabase : Type 0 where
    pub result : PgResult
    pub reply : Option L.Reply
    pub store : Store
    pub query_result : Bytes
    pub server : L.Server

  unfoldable pub new_database : L.Server → PgsqlDatabase
  new_database server = record {
    result = no_result;
    reply = none;
    store = empty_store;
    query_result = [];
    server = server;
  }

  unfoldable pub connect_database : WorkerParams → PgsqlDatabase → Bool × PgsqlDatabase
  unfolding conninfo
  connect_database p d =
      let (is_ok, server) = L.connectdb (conninfo p) d.server in
      (is_ok, record d { server = server })

  abbrev pub is_allocated : Option L.Reply → Bool
  is_allocated none = false
  is_allocated (some reply) = true

  abbrev pub status_of : Option L.Reply → ExecStatus
  status_of none = empty_query
  status_of (some reply) = L.result_status reply

  -- `performQuery` has cleared the output of the query before.
  unfoldable pub send_query : Bytes → PgsqlDatabase → Bool × PgsqlDatabase
  unfolding perform_real_query
  send_query query d =
      let (reply, server) = L.exec query d.server in
      let (is_ok, result, store) =
        perform_real_query (is_allocated reply) (status_of reply) d.result d.store in
      (
        is_ok,
        record {
          result = result;
          reply = reply;
          store = store;
          query_result = [];
          server = server;
        },
      )

  abbrev tuples_of : Option L.Reply → Option (List Values)
  tuples_of none = none
  tuples_of (some reply) = some (L.tuples reply)

  unfoldable pub read_output : PgsqlDatabase → Bytes × PgsqlDatabase
  unfolding process_query_output
  read_output d =
      let text = process_query_output (tuples_of d.reply) d.query_result in
      (text, record d { query_result = text })

  abbrev status_name : Option L.Reply → ExecStatus → Option Bytes
  status_name none status = none
  status_name (some reply) status = some (L.res_status status)

  abbrev pub rows_of : Option L.Reply → Option Bytes
  rows_of none = none
  rows_of (some reply) = some (L.cmd_tuples reply)

  unfoldable pub clean : PgsqlDatabase → PgsqlDatabase
  unfolding reset
  clean d =
      let (result, store) = reset d.result d.store in
      record d { result = result; reply = none; store = store }

  unfoldable pub error_string_of : PgsqlDatabase → Bytes
  unfolding get_error_string
  error_string_of d =
      get_error_string (status_name d.reply d.result.status) (L.error_message d.server)

  unfoldable pub affected_rows_of : PgsqlDatabase → Option ℕ
  unfolding get_affected_rows
  affected_rows_of d = get_affected_rows (rows_of d.reply)

  -- `getWarningsCount` gives 0.
  unfoldable pub pgsql_client : Client
  unfolding connect_database send_query read_output clean error_string_of affected_rows_of
  pgsql_client = record {
    Conn = PgsqlDatabase;
    connect = connect_database;
    perform_real_query = send_query;
    get_error_string = error_string_of;
    get_warnings_count = λ d. 0;
    get_affected_rows = affected_rows_of;
    get_query_duration_ms = λ d. L.query_duration_ms d.server;
    process_query_output = read_output;
    cleanup_result = clean;
  }

  abbrev version_of : Option L.Reply → ExecStatus → Option Bytes
  version_of (some reply) tuples_ok = some (L.first_value reply)
  version_of _ _ = none

  -- `getServerVersion` with the query that it sends.
  unfoldable pub ask_server_version : L.Server → Bytes
  unfolding get_server_version
  ask_server_version server =
      let (reply, behind) = L.exec (codes "SELECT VERSION()") server in
      get_server_version (version_of reply (status_of reply)) (L.server_version behind)

  -- `testConnection` of a worker, on an instance of its own.
  unfoldable pub test_connection : WorkerParams → L.Server → Bool × List Call
  unfolding test_pgsql_connection error_string_of connect_database new_database ask_server_version
      get_host_info
  test_connection p server =
      let (connected, d) = connect_database p (new_database server) in
      test_pgsql_connection connected (record {
        error_string = error_string_of d;
        host_info = get_host_info (L.host d.server) (L.port d.server);
        server_version = ask_server_version d.server;
      })

  -- What thread k of a worker starts with.
  unfoldable pub pgsql_thread :
      (Bytes → Bool)
      → Files
      → WorkerParams
      → (ℕ → ℕ → ℕ)
      → (ℕ → L.Server)
      → ℕ
      → (ℕ → ℕ) × ThreadState pgsql_client
  unfolding pgsql_client thread_start new_database
  pgsql_thread can_open files p random server k =
      (random k, thread_start pgsql_client can_open files p k (new_database (server k)))
