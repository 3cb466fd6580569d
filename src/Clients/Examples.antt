-- ===== src/Clients/Examples.antt =====
-- Runs of `PgResult` of src/cPgsqlDatabase.hpp, and its theorem at a concrete input.
use pquery.Prelude.{
  ◌↔◌, true, false, List, [], ◌∷◌, ◌≡◌, refl, some, none, codes, Bytes, All, ◌==◌, ℕ, ◌+◌, ◌%◌,
  arith, get_lines, starts_with, equal, is_alpha, is_alnum, is_digit,
}
use pquery.Clients.PgResult.{Use, query, cleanup, tuples_ok, command_ok, empty_query, lifetime}
use pquery.Clients.Ownership.{below, lifetime-below}
use pquery.IniReader.Values.{pgsql, sql, mysql}
use pquery.WorkerConfig.Params.{WorkerParams}
use pquery.Clients.Store.{empty_store}
use pquery.Clients.MysqlOutput.{
  ResultSet, no_columns, unstored, table, Output, process_query_output,
}
use pquery.Clients.MysqlFreed.{tables, readable, all_text, Freed, process_query_output_lem}
use pquery.Clients.Rows.{IsPlainRow, joined, read_rows, read_rows-process_query_output}
use pquery.Clients.MysqlConnection.{Attempt, new_link, connects, disconnect}
use pquery.Clients.MysqlClosed.{connects-disconnect}
use pquery.Clients.PgsqlOutput
use pquery.Clients.PgsqlOutput.{conninfo, get_error_string}
use pquery.Clients.Settings.{in_word, Settings}
use pquery.Clients.Conninfo.{read_settings, conninfo-Settings}
use pquery.SqlFileParser.Text.{
  trim, starts_with_delimiter, starts_line_comment, starts_block_comment, dollar_quote_open_length,
  is_delimiter_command, compare_at,
}
use pquery.SqlFileParser.Scanner.{load_queries_from_file, push_statement, scan, consume_char}
use pquery.DbWorker.Counters.{Totals}
use pquery.DbWorker.Worker.{
  create_mysql_infile_parser, load_query_list, execute_tests, adjust_runtime_params,
}
use pquery.DbWorker.Untroubled.{Succeeds}
use pquery.Clients.MysqlClient.{MysqlLibrary, mysql_client, mysql_thread}
use pquery.Clients.MysqlWorker.{mysql_worker-Succeeds}
use pquery.DbWorker.Bounded.{InList}

-- The second query gives no result.
abbrev uses : List Use
uses = query true tuples_ok ∷ query false empty_query ∷ query true command_ok ∷ cleanup ∷ []

two_cleared : (lifetime uses).cleared ≡ 1 ∷ 0 ∷ []
unfolding lifetime
two_cleared = refl

lifetime-below_example :
    ((lifetime uses).live ≡ []) × ((lifetime uses).cleared ≡ below (lifetime uses).next)
lifetime-below_example = lifetime-below uses

-- A table, a statement with no columns, a result that cannot be stored, and a table behind it.
abbrev results : List ResultSet
results =
    table ((some (codes "a") ∷ none ∷ []) ∷ (some [] ∷ some (codes "b c") ∷ []) ∷ [])
    ∷ no_columns
    ∷ unstored
    ∷ table ((some (codes "d") ∷ []) ∷ [])
    ∷ []

abbrev output : Output
output = record { query_result = codes "old"; store = empty_store }

processed : Output
unfolding process_query_output
processed = process_query_output results output

processed_text : processed.query_result ≡ codes "a\tNULL\nEMPTY\tb c\n"
unfolding processed
processed_text = refl

-- The table behind the failure is freed as well.
processed_store : (processed.store.live ≡ []) × (processed.store.cleared ≡ 1 ∷ 0 ∷ [])
unfolding processed
processed_store = (refl, refl)

process_query_output_lem_example :
    let after = process_query_output results output in
    (after.query_result ≡ all_text (readable results))
    × Freed (tables results) output.store after.store
    × (after.store.live ≡ output.store.live)
process_query_output_lem_example = process_query_output_lem results output

plain_rows : All IsPlainRow (joined (readable results))
unfolding readable
plain_rows = (
  (λ e. cc, ((λ e. cc, λ e. cc, ((refl, refl), tt)), (tt, tt))),
  (
    (
      λ e. cc,
      (
        (λ e. cc, λ e. cc, tt),
        ((λ e. cc, λ e. cc, ((refl, refl), ((refl, refl), ((refl, refl), tt)))), tt),
      ),
    ),
    tt,
  ),
)

read_rows-process_query_output_example :
    read_rows (process_query_output results output).query_result ≡ joined (readable results)
read_rows-process_query_output_example = read_rows-process_query_output results output plain_rows

abbrev params : Bytes → WorkerParams
params password = record {
  my_name = codes "node0";
  database = codes "test";
  dbtype = pgsql;
  address = codes "h";
  socket = [];
  username = codes "u";
  password = password;
  infile = codes "pquery.sql";
  infiletype = sql;
  logdir = codes "/tmp";
  port = 5432;
  threads = 1;
  queries_per_thread = 10;
  query_list_maxsize = 1024;
  verbose = false;
  log_all_queries = false;
  log_failed_queries = true;
  log_succeeded_queries = false;
  log_query_statistics = false;
  log_query_duration = false;
  log_client_output = false;
  log_query_numbers = false;
  shuffle = true;
  timeout_secs = 0;
  connect_timeout_secs = 60;
}

abbrev attempts : List Attempt
attempts =
    record { initialised = true; accepts = λ target. false; params = params [] }
    ∷ record { initialised = false; accepts = λ target. true; params = params [] }
    ∷ record { initialised = true; accepts = λ target. target.port == 5432; params = params [] }
    ∷ []

connects-disconnect_example :
    let s = (disconnect (connects attempts new_link)).handles in
    (s.live ≡ []) × (s.cleared ≡ below s.next)
connects-disconnect_example = connects-disconnect attempts

conninfo_text :
    conninfo (params []) ≡ codes "host=h user=u password= dbname=test port=5432 connect_timeout=60"
unfolding conninfo
conninfo_text = refl

-- With no password, there is no setting of the database.
conninfo_settings :
    read_settings (params [])
    ≡ (codes "host", codes "h")
      ∷ (codes "user", codes "u")
      ∷ (codes "password", codes "dbname=test")
      ∷ (codes "port", codes "5432")
      ∷ (codes "connect_timeout", codes "60")
      ∷ []
unfolding read_settings
conninfo_settings = refl

conninfo-Settings_example :
    Settings (conninfo (params [])) (read_settings (params []))
    ↔ (read_settings (params []) ≡ read_settings (params []))
unfolding in_word
conninfo-Settings_example =
    conninfo-Settings (params []) (read_settings (params [])) (refl, tt) (refl, tt) tt
      (refl, (refl, (refl, (refl, tt))))

errors :
    (get_error_string (some (codes "PGRES_FATAL_ERROR")) (codes "ERROR:  no\nLINE 1")
      ≡ codes "PGRES_FATAL_ERROR:  no")
    × (get_error_string none (codes "lost\n") ≡ codes "lost")
unfolding get_error_string
errors = (refl, refl)

output_text :
    PgsqlOutput.process_query_output (some ((codes "1" ∷ [] ∷ []) ∷ [])) (codes "old")
    ≡ codes "1 #EMPTY# \n"
unfolding PgsqlOutput.process_query_output
output_text = refl

abbrev no_totals : Totals
no_totals = record {
  performed_queries_total = 0;
  failed_queries_total = 0;
  failed_connections_total = 0;
  thread_failed = false;
}

-- A server that refuses every second query.
abbrev library : MysqlLibrary
library = record {
  Server = ℕ;
  initialises = λ n. true;
  real_connect = λ target n. (true, n);
  real_query = λ query n. (n % 2, n + 1);
  results = λ n. (table ((some (codes "1") ∷ []) ∷ []) ∷ [], n);
  errno = λ n. 1064;
  error = λ n. codes "syntax";
  warning_count = λ n. 0;
  affected_rows = λ n. 18446744073709551615;
  query_duration_ms = λ n. codes "0.5";
}

abbrev script : Bytes
script = codes "select 1;\nselect 2;\n"

abbrev worker_params : WorkerParams
worker_params = record (params []) { dbtype = mysql; shuffle = false; log_client_output = true }

loaded_queries :
    load_query_list create_mysql_infile_parser worker_params (some script)
    ≡ some (codes "select 1" ∷ codes "select 2" ∷ [])
unfolding load_query_list create_mysql_infile_parser load_queries_from_file push_statement trim
    starts_with_delimiter starts_line_comment starts_block_comment dollar_quote_open_length
    is_delimiter_command compare_at scan consume_char get_lines starts_with equal is_alpha is_alnum
    is_digit
loaded_queries = refl

mysql_worker-Succeeds_example : Succeeds (mysql_client library) (
    execute_tests
      (mysql_client library)
      create_mysql_infile_parser
      true
      worker_params
      (some script)
      3
      (mysql_thread library (λ path. true) [] worker_params (λ k i. i) (λ k. k))
      no_totals)
unfolding adjust_runtime_params InList
mysql_worker-Succeeds_example =
    mysql_worker-Succeeds library (λ path. true) [] worker_params (some script)
      (codes "select 1" ∷ codes "select 2" ∷ []) (λ k i. i) (λ k. k) no_totals loaded_queries
      (omega arith) (λ k i h. h) (λ k extension. refl) refl
