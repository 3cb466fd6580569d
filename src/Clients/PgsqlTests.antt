-- ===== src/Clients/PgsqlTests.antt =====
-- Runs of the client of src/cPgsqlDatabase.cpp with its worker, and the theorem at a concrete input.
use pquery.Prelude.{
  ℕ, true, false, [], ◌∷◌, ◌≡◌, refl, some, codes, Bytes, ◌+◌, ◌%◌, ◌==◌, if◌then◌else◌, arith, inr,
  get_lines, starts_with, equal, is_alpha, is_alnum, is_digit,
}
use pquery.IniReader.Values.{pgsql, sql}
use pquery.IniReader.Line.{skip_ws}
use pquery.WorkerConfig.Params.{WorkerParams}
use pquery.Clients.PgResult.{tuples_ok, other_status}
use pquery.Clients.PgsqlOutput.{number}
use pquery.Clients.PgsqlClient.{
  PqLibrary, PgsqlDatabase, error_string_of, affected_rows_of, pgsql_client, pgsql_thread,
  new_database, send_query, read_output, clean, test_connection,
}
use pquery.Clients.PgsqlWorker.{pgsql_worker-Succeeds}
use pquery.SqlFileParser.Text.{
  trim, starts_with_delimiter, starts_line_comment, starts_block_comment, dollar_quote_open_length,
  is_delimiter_command, compare_at,
}
use pquery.SqlFileParser.Scanner.{load_queries_from_file, push_statement, scan, consume_char}
use pquery.DbWorker.Counters.{Totals}
use pquery.DbWorker.Bounded.{InList}
use pquery.DbWorker.Untroubled.{Succeeds}
use pquery.DbWorker.Worker.{
  create_infile_parser, load_query_list, execute_tests, adjust_runtime_params,
}
use pquery.Logger.Calls.{record_added}

abbrev params : WorkerParams
params = record {
  my_name = codes "pg0";
  database = codes "test";
  dbtype = pgsql;
  address = codes "h";
  socket = [];
  username = codes "u";
  password = codes "p";
  infile = codes "pquery.sql";
  infiletype = sql;
  logdir = codes "/tmp";
  port = 5432;
  threads = 2;
  queries_per_thread = 10;
  query_list_maxsize = 1024;
  verbose = false;
  log_all_queries = true;
  log_failed_queries = true;
  log_succeeded_queries = false;
  log_query_statistics = true;
  log_query_duration = false;
  log_client_output = true;
  log_query_numbers = false;
  shuffle = false;
  timeout_secs = 0;
  connect_timeout_secs = 60;
}

-- A server that refuses every second query; a reply is the number of its query.
abbrev library : PqLibrary
library = record {
  Server = ℕ;
  Reply = ℕ;
  connectdb = λ text n. (true, n);
  exec = λ query n. (some n, n + 1);
  result_status = λ n. if n % 2 == 0 then tuples_ok else other_status;
  tuples = λ n. if n % 2 == 0 then (codes "1" ∷ [] ∷ []) ∷ [] else [];
  cmd_tuples = λ n. number 1;
  error_message = λ n. codes "ERROR:  no\nLINE 1";
  res_status = λ status. codes "PGRES_FATAL_ERROR";
  query_duration_ms = λ n. codes "0.5";
  first_value = λ n. codes "PostgreSQL 17";
  host = λ n. codes "h";
  port = λ n. codes "5432";
  server_version = λ n. 170000;
}

abbrev after_one : PgsqlDatabase library
after_one = (send_query library (codes "select 1") (new_database library 0)).1

abbrev after_two : PgsqlDatabase library
after_two = (send_query library (codes "nonsense") after_one).1

-- The first result is cleared when the second takes its place, and both are with the clean-up.
queries_sent :
    ((read_output library after_one).0 ≡ codes "1 #EMPTY# \n")
    × ((read_output library after_two).0 ≡ [])
    × (error_string_of library after_two ≡ codes "PGRES_FATAL_ERROR:  no")
    × (affected_rows_of library after_two ≡ some 1)
    × (after_two.store.live ≡ 1 ∷ [])
    × ((clean library after_two).store.cleared ≡ 1 ∷ 0 ∷ [])
unfolding send_query new_database read_output error_string_of affected_rows_of clean number skip_ws
queries_sent = (refl, refl, refl, refl, refl, refl)

connection_tested : test_connection library params 0 ≡ (
  true,
  record_added (codes "-> Successfully connected to h port 5432")
      ∷ record_added (codes "-> Server version: PostgreSQL 17")
      ∷ [],
)
unfolding test_connection
connection_tested = refl

abbrev script : Bytes
script = codes "select 1;\nselect 2;\n"

abbrev no_totals : Totals
no_totals = record {
  performed_queries_total = 0;
  failed_queries_total = 0;
  failed_connections_total = 0;
  thread_failed = false;
}

loaded_queries :
    load_query_list create_infile_parser params (some script)
    ≡ some (codes "select 1" ∷ codes "select 2" ∷ [])
unfolding load_query_list create_infile_parser load_queries_from_file push_statement trim
    starts_with_delimiter starts_line_comment starts_block_comment dollar_quote_open_length
    is_delimiter_command compare_at scan consume_char get_lines starts_with equal is_alpha is_alnum
    is_digit
loaded_queries = refl

pgsql_worker-Succeeds_example : Succeeds (pgsql_client library) (
    execute_tests
      (pgsql_client library)
      create_infile_parser
      (test_connection library params 0).0
      params
      (some script)
      3
      (pgsql_thread library (λ path. true) [] params (λ k i. i) (λ k. k))
      no_totals)
unfolding adjust_runtime_params InList
pgsql_worker-Succeeds_example =
    pgsql_worker-Succeeds library (λ path. true) [] params (some script)
      (codes "select 1" ∷ codes "select 2" ∷ []) (λ k i. i) 0 (λ k. k) no_totals
      (λ n. inr (1, (omega arith, refl))) refl loaded_queries (omega arith) (λ k i h. h)
      (λ k extension. refl) refl
