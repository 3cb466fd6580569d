-- ===== src/Clients/PgsqlWorker.antt =====
-- A worker of src/cPgsqlWorker.cpp with its client of src/cPgsqlDatabase.cpp.
use pquery.Prelude.{
  ℕ, suc, ◌^◌, ◌<◌, Bool, true, false, List, ◌≡◌, ◌≢◌, some, none, Bytes, Option, ◌⊎◌, inl, inr,
  int64_bound, [], refl,
}
use pquery.WorkerConfig.Params.{WorkerParams}
use pquery.Logger.Stream.{Files}
use pquery.DbWorker.Counters.{Totals}
use pquery.DbWorker.Worker.{
  create_infile_parser, load_query_list, execute_tests, adjust_runtime_params,
}
use pquery.DbWorker.Report.{test_pgsql_connection, ServerTexts}
use pquery.DbWorker.Logs.{thread_path}
use pquery.DbWorker.Quiet.{CountsRows}
use pquery.DbWorker.Opened.{execute_tests-Opened}
use pquery.DbWorker.Untroubled.{Succeeds}
use pquery.DbWorker.Bounded.{InList}
use pquery.Clients.PgsqlOutput.{get_affected_rows, number, conninfo}
use pquery.Clients.PgsqlErrors.{get_affected_rows-number}
use pquery.Clients.PgsqlClient.{
  affected_rows_of, PqLibrary, pgsql_client, pgsql_thread, new_database, test_connection, rows_of,
}

-- What `PQcmdTuples` returns by its manual: nothing, or a number of rows.
abbrev pub IsRowCount : Bytes → Type 0
IsRowCount text = (text ≡ []) ⊎ ((n : ℕ) × ((n < int64_bound) × (text ≡ number n)))

counted : (text : Bytes) → IsRowCount text → get_affected_rows (some text) ≢ none
unfolding get_affected_rows
counted text (inl e) = rw e (λ h. cc)
counted text (inr (n, (b, e))) = let k = get_affected_rows-number n b in λ h. cc

connected_passes :
    (connected : Bool) (texts : ServerTexts)
    → connected ≡ true
    → (test_pgsql_connection connected texts).0 ≡ true
unfolding test_pgsql_connection
connected_passes true texts h = refl
connected_passes false texts h = h

module _ (L : PqLibrary) where
  counted_of :
      (reply : Option L.Reply)
      → ((r : L.Reply) → IsRowCount (L.cmd_tuples r))
      → get_affected_rows (rows_of L reply) ≢ none
  unfolding get_affected_rows
  counted_of none h = λ e. cc
  counted_of (some reply) h = counted (L.cmd_tuples reply) (h reply)

  pgsql_client-CountsRows :
      ((reply : L.Reply) → IsRowCount (L.cmd_tuples reply)) → CountsRows (pgsql_client L)
  unfolding pgsql_client affected_rows_of
  pgsql_client-CountsRows h conn = counted_of conn.reply h

  -- A worker with the PostgreSQL client returns, and returns true, whatever its server answers and
  -- however many queries fail: where libpq gives every result an empty count of rows or one of
  -- int64_t, the test connects, the query list is loaded, its threads run fewer than 2^32 queries
  -- each, every number that is asked for is in the list, the log files of its threads can be
  -- opened, and no thread has failed before.
  pub pgsql_worker-Succeeds :
      (can_open : Bytes → Bool) (files : Files) (p : WorkerParams) (file : Option Bytes)
      (query_list : List Bytes) (random : ℕ → ℕ → ℕ) (tester : L.Server) (server : ℕ → L.Server)
      (t : Totals)
      → ((reply : L.Reply) → IsRowCount (L.cmd_tuples reply))
      → (L.connectdb (conninfo p) tester).0 ≡ true
      → load_query_list create_infile_parser p file ≡ some query_list
      → (adjust_runtime_params query_list p).queries_per_thread < 2 ^ 32
      → ((k : ℕ) → InList (adjust_runtime_params query_list p) query_list (random k))
      → ((k : ℕ) (extension : Bytes) → can_open (thread_path p k extension) ≡ true)
      → t.thread_failed ≡ false
      → Succeeds (pgsql_client L) (
          execute_tests
            (pgsql_client L)
            create_infile_parser
            (test_connection L p tester).0
            p
            file
            (suc (adjust_runtime_params query_list p).queries_per_thread)
            (pgsql_thread L can_open files p random server)
            t)
  unfolding pgsql_thread test_connection
  pgsql_worker-Succeeds can_open files p file query_list random tester server t r c e k i o g =
      rw (connected_passes _ _ c) (
        execute_tests-Opened (pgsql_client L) can_open files p create_infile_parser file query_list
          random (λ n. new_database L (server n)) t e k i (pgsql_client-CountsRows r) o g)
