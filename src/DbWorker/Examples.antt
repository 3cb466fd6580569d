-- ===== src/DbWorker/Examples.antt =====
-- Runs of a worker of src/cDbWorker.cpp, and its theorems at concrete inputs.
use pquery.Prelude.{
  ℕ, ◌^◌, Bool, true, false, List, [], ◌∷◌, ◌≡◌, refl, arith, Option, some, Bytes, codes, map,
  get_lines, is_alpha, is_alnum, equal, starts_with, is_digit,
}
use pquery.IniReader.Values.{mysql, sql}
use pquery.SqlFileParser.Text.{
  trim, starts_with_delimiter, starts_line_comment, starts_block_comment, dollar_quote_open_length,
  is_delimiter_command, compare_at,
}
use pquery.SqlFileParser.Scanner.{load_queries_from_file, push_statement, scan, consume_char}
use pquery.WorkerConfig.Params.{WorkerParams}
use pquery.DbWorker.Counters.{new_counters, Totals}
use pquery.DbWorker.Thread.{
  LogFile, closed, writing, no_logger, Client, ThreadState, unfinished, query_loop,
}
use pquery.DbWorker.Worker.{create_infile_parser, load_query_list, execute_tests, worker_thread}
use pquery.DbWorker.Bounded.{
  Ended, InList, AnswersAll, query_loop-Ended_at_start, query_loop_endless,
}
use pquery.DbWorker.Replays.{Replay, query_loop-Replay}
use pquery.DbWorker.Streaks.{Story, query_loop-Story}
use pquery.DbWorker.Returns.{IsReturned, execute_tests-IsReturned}
use pquery.DbWorker.Logs.{thread_path, thread_start, wants_thread_log}
use pquery.DbWorker.Unlogged.{worker_thread-Unlogged}
use pquery.DbWorker.Report.{final_report}

abbrev next_answer : List Bool → Bool × List Bool
next_answer [] = (true, [])
next_answer (b ∷ answers) = (b, answers)

-- A server with its answers laid out; behind them it answers every query.
abbrev scripted : Client
scripted = record {
  Conn = List Bool;
  connect = λ p conn. (true, conn);
  perform_real_query = λ query conn. next_answer conn;
  get_error_string = λ conn. codes "1064: syntax";
  get_warnings_count = λ conn. 0;
  get_affected_rows = λ conn. some 1;
  get_query_duration_ms = λ conn. codes "0.5";
  process_query_output = λ conn. ([], conn);
  cleanup_result = λ conn. conn;
}

abbrev willing : Client
willing = record {
  Conn = Unit {0};
  connect = λ p conn. (true, conn);
  perform_real_query = λ query conn. (true, conn);
  get_error_string = λ conn. [];
  get_warnings_count = λ conn. 0;
  get_affected_rows = λ conn. some 1;
  get_query_duration_ms = λ conn. codes "0.5";
  process_query_output = λ conn. ([], conn);
  cleanup_result = λ conn. conn;
}

abbrev params : Bool → ℕ → WorkerParams
params shuffle queries = record {
  my_name = codes "node0";
  database = codes "test";
  dbtype = mysql;
  address = codes "localhost";
  socket = [];
  username = codes "test";
  password = [];
  infile = codes "pquery.sql";
  infiletype = sql;
  logdir = codes "/tmp";
  port = 3306;
  threads = 1;
  queries_per_thread = queries;
  query_list_maxsize = 1024;
  verbose = false;
  log_all_queries = false;
  log_failed_queries = true;
  log_succeeded_queries = false;
  log_query_statistics = false;
  log_query_duration = false;
  log_client_output = false;
  log_query_numbers = false;
  shuffle = shuffle;
  timeout_secs = 0;
  connect_timeout_secs = 60;
}

abbrev queries : List Bytes
queries = map codes ("select 1" ∷ "select x" ∷ [])

abbrev with_log : {C : Client} → LogFile → C.Conn → ThreadState C
with_log log conn = record {
  conn = conn;
  counters = new_counters;
  thread_log = log;
  output_log = no_logger;
}

abbrev fresh : {C : Client} → C.Conn → ThreadState C
fresh conn = with_log (writing []) conn

abbrev no_totals : Totals
no_totals = record {
  performed_queries_total = 0;
  failed_queries_total = 0;
  failed_connections_total = 0;
  thread_failed = false;
}

abbrev file : Bytes
file = codes "select 1;\nselect x;"

load : Option (List Bytes)
unfolding load_query_list create_infile_parser load_queries_from_file push_statement trim
    starts_with_delimiter starts_line_comment starts_block_comment dollar_quote_open_length
    is_delimiter_command compare_at scan consume_char get_lines starts_with equal is_alpha is_alnum
    is_digit
load = load_query_list create_infile_parser (params false 5) (some file)

load_queries : load ≡ some queries
unfolding load
load_queries = refl

-- One of the two queries fails.
run_replay :
    execute_tests scripted create_infile_parser true
      (params false 5)
      (some file)
      3
      (λ n. (λ i. i, fresh (true ∷ false ∷ [])))
      no_totals
    ≡ some (true, record no_totals { performed_queries_total = 2; failed_queries_total = 1 })
unfolding load execute_tests
run_replay = refl

-- A log file that is not open ends the thread with the first query.
run_closed_log :
    execute_tests scripted create_infile_parser true
      (params false 5)
      (some file)
      3
      (λ n. (λ i. i, with_log closed (true ∷ [])))
      no_totals
    ≡ some (false, record no_totals { thread_failed = true })
unfolding load execute_tests
run_closed_log = refl

query_loop-Ended_at_start_example :
    Ended (query_loop scripted (params true 2) queries (λ i. 1) 3 0 (fresh []))
unfolding InList
query_loop-Ended_at_start_example =
    query_loop-Ended_at_start scripted (params true 2) queries (λ i. 1) (fresh []) (omega arith)
      (λ i h. omega arith)

query_loop_endless_example :
    query_loop willing (params true (2 ^ 32)) queries (λ i. 0) 1000 0 (with_log no_logger tt)
    ≡ unfinished
unfolding InList AnswersAll
query_loop_endless_example =
    query_loop_endless willing (params true (2 ^ 32)) queries (λ i. 0) 1000 0
      (with_log no_logger tt) (omega arith) (λ i h. omega arith) (λ query conn. refl)
      (record { no_thread_log = refl; no_output_log = refl }) (omega arith)

query_loop-Replay_example :
    Replay scripted
      (params false 2)
      0
      queries
      (fresh (true ∷ false ∷ []))
      (query_loop scripted (params false 2) queries (λ i. 0) 3 0 (fresh (true ∷ false ∷ [])))
query_loop-Replay_example =
    query_loop-Replay scripted (params false 2) (λ i. 0) queries (fresh (true ∷ false ∷ [])) refl
      refl (omega arith)

query_loop-Story_example :
    Story scripted
      (params false 2)
      (fresh (true ∷ false ∷ []))
      (query_loop scripted (params false 2) queries (λ i. 0) 3 0 (fresh (true ∷ false ∷ [])))
query_loop-Story_example =
    query_loop-Story scripted (params false 2) queries (λ i. 0) 3 (fresh (true ∷ false ∷ [])) refl

execute_tests-IsReturned_example : IsReturned (
    execute_tests scripted create_infile_parser true
      (params false 5)
      (some file)
      3
      (λ n. (λ i. i, fresh (true ∷ false ∷ [])))
      no_totals)
unfolding load
execute_tests-IsReturned_example =
    execute_tests-IsReturned scripted create_infile_parser (params false 5) (some file) queries
      (λ n. (λ i. i, fresh (true ∷ false ∷ []))) no_totals load_queries refl (omega arith)

abbrev nowhere : Bytes → Bool
nowhere path = false

start_paths : thread_path (params false 5) 3 (codes ".sql") ≡ codes "/tmp/node0_thread-3.sql"
unfolding thread_path
start_paths = refl

worker_thread-Unlogged_example :
    worker_thread scripted
      (params false 5)
      queries
      (λ i. i)
      3
      (thread_start scripted nowhere [] (params false 5) 0 (true ∷ []))
      no_totals
    ≡ some (record no_totals { thread_failed = true })
unfolding wants_thread_log
worker_thread-Unlogged_example =
    worker_thread-Unlogged scripted nowhere [] (params false 5) 0 (true ∷ []) queries (λ i. i) 2
      no_totals refl refl (omega arith) (omega arith)

report_text :
    final_report
      (λ n m. codes "50.00")
      (record no_totals {
        performed_queries_total = 2;
        failed_queries_total = 1;
        failed_connections_total = 1;
      })
    ≡ codes
        "-> WORKER SUMMARY: 1/2 queries failed, (50.00% were successful); 1 thread(s) failed to connect"
unfolding final_report
report_text = refl
