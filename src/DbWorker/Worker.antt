-- ===== src/DbWorker/Worker.antt =====
-- `executeTests` of src/cDbWorker.cpp with its input file, `createInfileParser` of
-- src/cMysqlWorker.cpp, and src/cInfileParser.cpp.
use pquery.Prelude.{
  ℕ, zero, suc, ◌+◌, ◌%◌, ◌^◌, Bool, true, false, not, List, [], Option, none, some, ◌==◌, ltb,
  if◌then◌else◌, Bytes, codes, ◌++◌, length, is_empty,
}
use pquery.IniReader.Values.{DbType, pgsql, sql, genlog, binlog, unknown}
use pquery.SqlFileParser.Scanner.{load_queries_from_file}
use pquery.WorkerConfig.Params.{WorkerParams}
use pquery.DbWorker.Counters.{Totals, calculate_queries}
use pquery.DbWorker.Thread.{
  Client, ThreadState, Run, done, gave_up, thrown, out_of_list, unfinished, query_loop, LogFile,
  written,
}

pub data InfileParser : Type 0 where
  sql_file : Bool → InfileParser
  gen_log bin_log : InfileParser

abbrev pub is_pgsql : DbType → Bool
is_pgsql pgsql = true
is_pgsql _ = false

-- That of `DbWorker`, which `PgsqlWorker` keeps.
unfoldable pub create_infile_parser : WorkerParams → Option InfileParser
create_infile_parser p = elim p.infiletype [ sql ↦ some (sql_file (is_pgsql p.dbtype)) | _ ↦ none ]

-- That of `MysqlWorker`.
unfoldable pub create_mysql_infile_parser : WorkerParams → Option InfileParser
create_mysql_infile_parser p = elim p.infiletype [
  | sql ↦ some (sql_file false)
  | genlog ↦ some gen_log
  | binlog ↦ some bin_log
  | unknown ↦ none
]

-- The file is its content, or `none` where it cannot be opened.
unfoldable pub get_infile_size : Option Bytes → ℕ
get_infile_size none = 0
get_infile_size (some content) = length content

unfoldable pub validate_infile_size : WorkerParams → Option Bytes → Bool
unfolding get_infile_size
validate_infile_size p file =
    let file_size = get_infile_size file in
    if file_size == 0 then false else not (ltb p.query_list_maxsize file_size)

-- The parsers of the two MySQL logs refuse every file.
abbrev pub load_gen_log : Option (List Bytes) → Option (List Bytes) × Bool
load_gen_log query_list = (query_list, false)

abbrev pub load_bin_log : Option (List Bytes) → Option (List Bytes) × Bool
load_bin_log query_list = (query_list, false)

-- `loadQueriesFromFile` of the parser that was chosen.
unfoldable pub load_queries :
    InfileParser → Option (List Bytes) → Option Bytes → Option (List Bytes) × Bool
load_queries (sql_file dollar_quoting) query_list file =
    load_queries_from_file dollar_quoting query_list file
load_queries gen_log query_list file = load_gen_log query_list
load_queries bin_log query_list file = load_bin_log query_list

abbrev loaded : Option (List Bytes) × Bool → Option (List Bytes)
loaded (query_list, true) = query_list
loaded (query_list, false) = none

abbrev load_with : WorkerParams → Option Bytes → Option InfileParser → Option (List Bytes)
unfolding load_queries validate_infile_size
load_with p file none = none
load_with p file (some parser) =
    if validate_infile_size p file then loaded (load_queries parser (some []) file) else none

-- The query list, which was empty, or `none` where the call returns false.
unfoldable pub load_query_list :
    (WorkerParams → Option InfileParser) → WorkerParams → Option Bytes → Option (List Bytes)
unfolding load_with
load_query_list create p file = load_with p file (create p)

-- Where the queries are replayed, one thread runs the whole list.
unfoldable pub adjust_runtime_params : List Bytes → WorkerParams → WorkerParams
adjust_runtime_params query_list p =
    if not p.shuffle then record p { threads = 1; queries_per_thread = length query_list } else p

abbrev pub unable_to_connect : Bytes → Bytes
unable_to_connect error = codes "=> Unable to connect! Database error " ++ error

module _ (C : Client) where
  abbrev pub started : C.Conn → ThreadState C → ThreadState C
  started conn s = record s { conn = conn }

  unfoldable pub ended : Totals → Run C → Option Totals
  unfolding calculate_queries
  ended t (done s) = some (calculate_queries s.counters t)
  ended t (gave_up s) = some (calculate_queries s.counters t)
  ended t thrown = some (record t { thread_failed = true })
  ended t out_of_list = none
  ended t unfinished = none

  -- A thread with no connection, with its log behind the message. An exception of that logger comes
  -- before the connection is counted.
  abbrev pub unconnected : Totals → Option LogFile → Totals
  unconnected t none = record t { thread_failed = true }
  unconnected t (some log) = record t {
    failed_connections_total = (t.failed_connections_total + 1) % 2 ^ 64;
  }

  -- `workerThread`, from the state with its connection and its files. `none` where it does not
  -- return, or goes behind the query list. The log of the worker is open.
  unfoldable pub worker_thread :
      WorkerParams → List Bytes → (ℕ → ℕ) → ℕ → ThreadState C → Totals → Option Totals
  unfolding query_loop ended
  worker_thread p query_list random fuel s t =
      if is_empty query_list
      then some t
      else let (connected, conn) = C.connect p s.conn in
        if not connected
        then some (
            unconnected t
              (written (unable_to_connect (C.get_error_string conn) ++ codes "\n") s.thread_log))
        else ended t (query_loop C p query_list random fuel 0 (started conn s))

  abbrev pub after_threads : Option Totals → (Totals → Option Totals) → Option Totals
  after_threads none last = none
  after_threads (some t) last = last t

  -- `spawnWorkerThreads`: what the threads add to the totals does not depend on their order, so they
  -- are run one after the other. Each has its own random numbers, connection and files.
  unfoldable pub spawn_worker_threads :
      WorkerParams → List Bytes → ℕ → (ℕ → (ℕ → ℕ) × ThreadState C) → ℕ → Totals → Option Totals
  unfolding worker_thread
  spawn_worker_threads p query_list fuel thread zero t = some t
  spawn_worker_threads p query_list fuel thread (suc n) t =
      after_threads (spawn_worker_threads p query_list fuel thread n t)
        (worker_thread p query_list (thread n).0 fuel (thread n).1)

  abbrev pub reported : Option Totals → Option (Bool × Totals)
  reported none = none
  reported (some t) = some (not t.thread_failed, t)

  unfoldable pub run_queries :
      WorkerParams
      → ℕ
      → (ℕ → (ℕ → ℕ) × ThreadState C)
      → Totals
      → Option (List Bytes)
      → Option (Bool × Totals)
  unfolding adjust_runtime_params spawn_worker_threads
  run_queries p fuel thread t none = some (false, t)
  run_queries p fuel thread t (some query_list) =
      let p = adjust_runtime_params query_list p in
      reported (spawn_worker_threads p query_list fuel thread p.threads t)

  -- `connected` is the result of `testConnection`.
  unfoldable pub execute_tests :
      (WorkerParams → Option InfileParser)
      → Bool
      → WorkerParams
      → Option Bytes
      → ℕ
      → (ℕ → (ℕ → ℕ) × ThreadState C)
      → Totals
      → Option (Bool × Totals)
  unfolding load_query_list run_queries
  execute_tests create connected p file fuel thread t =
      if not connected
      then some (false, t)
      else run_queries p fuel thread t (load_query_list create p file)
