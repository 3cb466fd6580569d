-- ===== src/DbWorker/Opened.antt =====
-- A worker of src/cDbWorker.cpp whose threads have opened their log files.
use pquery.Prelude.{ℕ, suc, ◌^◌, ◌<◌, Bool, true, false, List, ◌≡◌, some, Bytes, codes, Option}
use pquery.WorkerConfig.Params.{WorkerParams}
use pquery.Logger.Stream.{Files}
use pquery.DbWorker.Counters.{Totals}
use pquery.DbWorker.Thread.{Client, LogFile}
use pquery.DbWorker.Worker.{InfileParser, load_query_list, execute_tests, adjust_runtime_params}
use pquery.DbWorker.Logs.{thread_start, thread_path, open_log, log_if, wants_thread_log}
use pquery.DbWorker.Quiet.{IsWritable, CountsRows, HasLogs}
use pquery.DbWorker.Unlogged.{open_log_lem}
use pquery.DbWorker.Untroubled.{Succeeds, execute_tests-Succeeds}
use pquery.DbWorker.Bounded.{InList}

log_if-IsWritable :
    (wanted : Bool) (log : LogFile) → IsWritable log → IsWritable (log_if wanted log)
log_if-IsWritable true log h = h
log_if-IsWritable false log h = tt

open_log-IsWritable :
    (can_open : Bytes → Bool) (files : Files) (path : Bytes)
    → can_open path ≡ true
    → IsWritable (open_log can_open files path)
open_log-IsWritable can_open files path h = rw (open_log_lem can_open files path, h) tt

module _ (C : Client) (can_open : Bytes → Bool) (files : Files) (p : WorkerParams) where
  thread_start-HasLogs :
      (n : ℕ) (conn : C.Conn)
      → ((extension : Bytes) → can_open (thread_path p n extension) ≡ true)
      → HasLogs C (thread_start C can_open files p n conn)
  unfolding thread_start
  thread_start-HasLogs n conn o = record {
    thread_log =
        log_if-IsWritable (wants_thread_log p) _
          (open_log-IsWritable can_open files (thread_path p n (codes ".sql")) (o _));
    output_log =
        log_if-IsWritable p.log_client_output _
          (open_log-IsWritable can_open files (thread_path p n (codes ".out")) (o _));
  }

  -- A worker returns, and returns true, where its connection test succeeds, its query list is
  -- loaded, its client never throws, its threads run fewer than 2^32 queries each, every number that
  -- is asked for is in the list, the log files of its threads can be opened, and no thread has failed
  -- before.
  pub execute_tests-Opened :
      (create : WorkerParams → Option InfileParser) (file : Option Bytes) (query_list : List Bytes)
      (random : ℕ → ℕ → ℕ) (conn : ℕ → C.Conn) (t : Totals)
      → load_query_list create p file ≡ some query_list
      → (adjust_runtime_params query_list p).queries_per_thread < 2 ^ 32
      → ((k : ℕ) → InList (adjust_runtime_params query_list p) query_list (random k))
      → CountsRows C
      → ((k : ℕ) (extension : Bytes) → can_open (thread_path p k extension) ≡ true)
      → t.thread_failed ≡ false
      → Succeeds C (
          execute_tests C create true p file
            (suc (adjust_runtime_params query_list p).queries_per_thread)
            (λ k. (random k, thread_start C can_open files p k (conn k)))
            t)
  execute_tests-Opened create file query_list random conn t e k i c o g =
      execute_tests-Succeeds C create p file query_list _ t e k i c
        (λ n. thread_start-HasLogs n (conn n) (o n)) g
