-- ===== src/Clients/MysqlClient.antt =====
-- The class `MysqlDatabase` of src/cMysqlDatabase.cpp behind the interface of `Database` that the
-- threads of a worker use.
use pquery.Prelude.{ℕ, Bool, List, [], some, if◌then◌else◌, Bytes}
use pquery.WorkerConfig.Params.{WorkerParams}
use pquery.DbWorker.Thread.{Client, ThreadState}
use pquery.DbWorker.Logs.{thread_start}
use pquery.Logger.Stream.{Files}
use pquery.Clients.Store.{empty_store}
use pquery.Clients.MysqlOutput.{ResultSet, Output, process_query_output, get_affected_rows}
use pquery.Clients.MysqlConnection.{
  Link, Target, new_link, target_of, connect, perform_real_query, get_error_string,
}

-- libmysqlclient with its server, and the clock: what each call returns, and the state behind it.
pub record MysqlLibrary : Type 1 where
  pub Server : Type 0
  pub initialises : Server → Bool
  pub real_connect : Target → Server → Bool × Server
  pub real_query : Bytes → Server → ℕ × Server
  pub results : Server → List ResultSet × Server
  pub errno : Server → ℕ
  pub error : Server → Bytes
  pub warning_count : Server → ℕ
  pub affected_rows : Server → ℕ
  pub query_duration_ms : Server → Bytes

module _ (L : MysqlLibrary) where
  -- The object, with the server.
  pub record MysqlDatabase : Type 0 where
    pub link : Link
    pub output : Output
    pub server : L.Server

  unfoldable pub new_database : L.Server → MysqlDatabase
  new_database server = record {
    link = new_link;
    output = record { query_result = []; store = empty_store };
    server = server;
  }

  unfoldable pub connect_database : WorkerParams → MysqlDatabase → Bool × MysqlDatabase
  unfolding connect target_of
  connect_database p d =
      let (accepted, behind) = L.real_connect (target_of p) d.server in
      let (connected, link) = connect (L.initialises d.server) (λ target. accepted) p d.link in
      (
        connected,
        record d { link = link; server = if L.initialises d.server then behind else d.server },
      )

  -- `performQuery` has cleared the output of the query before.
  unfoldable pub send_query : Bytes → MysqlDatabase → Bool × MysqlDatabase
  unfolding perform_real_query
  send_query query d =
      let (status, server) = L.real_query query d.server in
      (
        perform_real_query status,
        record d { server = server; output = record d.output { query_result = [] } },
      )

  unfoldable pub read_output : MysqlDatabase → Bytes × MysqlDatabase
  unfolding process_query_output
  read_output d =
      let (results, server) = L.results d.server in
      let output = process_query_output results d.output in
      (output.query_result, record d { output = output; server = server })

  -- `getAffectedRows` throws nothing, and `cleanupResult` does nothing.
  unfoldable pub mysql_client : Client
  unfolding connect_database send_query read_output get_error_string get_affected_rows
  mysql_client = record {
    Conn = MysqlDatabase;
    connect = connect_database;
    perform_real_query = send_query;
    get_error_string = λ d. get_error_string d.link (L.errno d.server) (L.error d.server);
    get_warnings_count = λ d. L.warning_count d.server;
    get_affected_rows = λ d. some (get_affected_rows (L.affected_rows d.server));
    get_query_duration_ms = λ d. L.query_duration_ms d.server;
    process_query_output = read_output;
    cleanup_result = λ d. d;
  }

  -- What thread k of a worker starts with.
  unfoldable pub mysql_thread :
      (Bytes → Bool)
      → Files
      → WorkerParams
      → (ℕ → ℕ → ℕ)
      → (ℕ → L.Server)
      → ℕ
      → (ℕ → ℕ) × ThreadState mysql_client
  unfolding mysql_client thread_start new_database
  mysql_thread can_open files p random server k =
      (random k, thread_start mysql_client can_open files p k (new_database (server k)))
