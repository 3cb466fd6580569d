-- ===== src/Clients/MysqlWorker.antt =====
-- A worker of src/cMysqlWorker.cpp with its client of src/cMysqlDatabase.cpp.
use pquery.Prelude.{ℕ, suc, ◌^◌, ◌<◌, Bool, true, false, List, ◌≡◌, some, Bytes, Option}
use pquery.WorkerConfig.Params.{WorkerParams}
use pquery.Logger.Stream.{Files}
use pquery.DbWorker.Counters.{Totals}
use pquery.DbWorker.Worker.{
  create_mysql_infile_parser, load_query_list, execute_tests, adjust_runtime_params,
}
use pquery.DbWorker.Logs.{thread_path}
use pquery.DbWorker.Quiet.{CountsRows}
use pquery.DbWorker.Opened.{execute_tests-Opened}
use pquery.DbWorker.Untroubled.{Succeeds}
use pquery.Clients.MysqlClient.{new_database, MysqlLibrary, mysql_thread, mysql_client}
use pquery.DbWorker.Bounded.{InList}

module _ (L : MysqlLibrary) where
  mysql_client-CountsRows : CountsRows (mysql_client L)
  unfolding mysql_client
  mysql_client-CountsRows conn = λ e. cc

  -- A worker with the MySQL client whose connection test succeeds and whose query list is loaded
  -- returns, and returns true, whatever its server answers and however many queries fail: where its
  -- threads run fewer than 2^32 queries each, every number that is asked for is in the list, the
  -- log files of its threads can be opened, and no thread has failed before.
  pub mysql_worker-Succeeds :
      (can_open : Bytes → Bool) (files : Files) (p : WorkerParams) (file : Option Bytes)
      (query_list : List Bytes) (random : ℕ → ℕ → ℕ) (server : ℕ → L.Server) (t : Totals)
      → load_query_list create_mysql_infile_parser p file ≡ some query_list
      → (adjust_runtime_params query_list p).queries_per_thread < 2 ^ 32
      → ((k : ℕ) → InList (adjust_runtime_params query_list p) query_list (random k))
      → ((k : ℕ) (extension : Bytes) → can_open (thread_path p k extension) ≡ true)
      → t.thread_failed ≡ false
      → Succeeds (mysql_client L) (
          execute_tests
            (mysql_client L)
            create_mysql_infile_parser
            true
            p
            file
            (suc (adjust_runtime_params query_list p).queries_per_thread)
            (mysql_thread L can_open files p random server)
            t)
  unfolding mysql_thread
  mysql_worker-Succeeds can_open files p file query_list random server t e k i o g =
      execute_tests-Opened (mysql_client L) can_open files p create_mysql_infile_parser file
        query_list random (λ n. new_database L (server n)) t e k i mysql_client-CountsRows o g
