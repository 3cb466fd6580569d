-- ===== src/DbWorker/Logs.antt =====
-- The log files that `workerThread` of src/cDbWorker.cpp opens for itself, and the messages that it
-- leaves behind a connection that fails.
use pquery.Prelude.{
  ℕ, Bool, ◌||◌, List, [], ◌∷◌, ◌++◌, Option, none, some, if◌then◌else◌, Bytes, codes, pos,
}
use pquery.WorkerConfig.Params.{WorkerParams}
use pquery.WorkerConfig.Checks.{to_string}
use pquery.Logger.Stream.{Files}
use pquery.Logger.Operations.{LogState, new_logger, init_log_file}
use pquery.Logger.Calls.{Call, record_added, inserted}
use pquery.Logger.Journal.{journal}
use pquery.DbWorker.Counters.{new_counters}
use pquery.DbWorker.Worker.{unable_to_connect}
use pquery.DbWorker.Thread.{Client, ThreadState, LogFile, no_logger, closed, writing}

-- A `Logger` as the loop over the queries sees it.
abbrev pub log_of : Option (Bytes × Bytes) → LogFile
log_of none = closed
log_of (some (path, text)) = writing text

abbrev pub log_file_of : LogState → LogFile
log_file_of s = log_of (journal s).target

-- The path of a log of thread n.
unfoldable pub thread_path : WorkerParams → ℕ → Bytes → Bytes
unfolding to_string
thread_path p n extension =
    p.logdir ++ (codes "/" ++ (p.my_name ++ (codes "_thread-" ++ (to_string (pos n) ++ extension))))

-- A new logger on a file, whether or not it can be opened.
unfoldable pub open_log : (Bytes → Bool) → Files → Bytes → LogFile
unfolding init_log_file new_logger
open_log can_open files path =
    log_file_of (init_log_file can_open path (record { logger = new_logger; files = files })).1

abbrev pub log_if : Bool → LogFile → LogFile
log_if wanted log = if wanted then log else no_logger

unfoldable pub wants_thread_log : WorkerParams → Bool
wants_thread_log p =
    p.log_failed_queries
    || (p.log_all_queries
        || (p.log_succeeded_queries
            || (p.log_query_duration || (p.log_query_statistics || p.log_query_numbers))))

-- What thread n starts with. A connection is made behind it.
unfoldable pub thread_start :
    (C : Client) → (Bytes → Bool) → Files → WorkerParams → ℕ → C.Conn → ThreadState C
unfolding open_log thread_path wants_thread_log
thread_start C can_open files p n conn = record {
  conn = conn;
  counters = new_counters;
  thread_log =
      log_if (wants_thread_log p) (open_log can_open files (thread_path p n (codes ".sql")));
  output_log =
      log_if p.log_client_output (open_log can_open files (thread_path p n (codes ".out")));
}

-- What a thread writes where it cannot connect: to its own log, and to that of the worker.
unfoldable pub connection_failed : WorkerParams → ℕ → Bytes → List Call × List Call
unfolding to_string wants_thread_log
connection_failed p n error =
    let message = record_added (unable_to_connect error) in
    let exiting = inserted (
      codes "==> Thread #"
      ++ (to_string (pos n) ++ codes " is exiting abnormally, unable to init database\n")) in
    if wants_thread_log p then (message ∷ [], exiting ∷ []) else ([], message ∷ exiting ∷ [])
