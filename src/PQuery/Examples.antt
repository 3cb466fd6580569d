-- ===== src/PQuery/Examples.antt =====
-- Runs of the master of src/cPQuery.cpp, and its theorem at a concrete input.
use pquery.Prelude.{
  ℕ, ◌+◌, true, List, [], ◌∷◌, ◌++◌, ◌≡◌, refl, Option, some, Bytes, codes, get_lines, equal,
  lookup, to_lower, none, Bool, pos,
}
use pquery.IniReader.Line.{is_blank_line, is_comment, try_parse_section, try_parse_key_value}
use pquery.IniReader.Reader.{ini_reader, get, IniReader, empty_reader}
use pquery.IniReader.Values.{
  extract_int, multiplier, overflows, extract_char, get_integer, get_db_type, get_infile_type,
  get_boolean,
}
use pquery.WorkerConfig.Params.{BuildFlags}
use pquery.WorkerConfig.Setup.{setup_worker_params}
use pquery.WorkerConfig.Build.{build_all_worker_params}
use pquery.WorkerPool.Processes.{Event, exited, nobody}
use pquery.WorkerPool.Spawning.{Fork, parent, run_all}
use pquery.PQuery.Master.{exit_success, exit_failure, run}
use pquery.PQuery.Success.{Succeeds, run-Succeeds}
use pquery.Logger.Stream.{Files}
use pquery.Logger.Calls.{Call, record_added, partial_added}
use pquery.Cli.Texts.{BuildInfo}
use pquery.Cli.Options.{CliOptions, Opt, config_file, master_logfile, help}
use pquery.Cli.Chosen.{asked_text}
use pquery.PQuery.Startup.{Process, main, init_logger}
use pquery.PQuery.Redirects.{Redirected, started, init_logger-Redirected}
use pquery.PQuery.Entry.{Outcome, main-Outcome}

abbrev config : Bytes
config = codes "[a]\nrun = yes\ntimeout = 5\n[b]\nrun = no\nport = 0\n"

abbrev both : BuildFlags
both = record { have_mysql = true; have_pgsql = true }

abbrev fork : ℕ → Fork
fork k = parent (100 + k) 0

run_with : Bytes → List Event → Option ℕ
unfolding ini_reader get_lines is_blank_line is_comment try_parse_section try_parse_key_value equal
    setup_worker_params get_integer get_db_type get_infile_type get_boolean get lookup to_lower
    extract_int multiplier overflows extract_char build_all_worker_params run_all run
run_with content events = run both true (some content) fork events

run_success : run_with config (nobody 1 ∷ exited 100 0 ∷ []) ≡ some exit_success
unfolding run_with
run_success = refl

run_failed_worker : run_with config (exited 100 1 ∷ []) ≡ some exit_failure
unfolding run_with
run_failed_worker = refl

run_malformed : run_with (config ++ codes "what\n") (exited 100 0 ∷ []) ≡ some exit_failure
unfolding run_with
run_malformed = refl

run-Succeeds_example : Succeeds both (some config) fork (nobody 1 ∷ exited 100 0 ∷ [])
unfolding run_with
run-Succeeds_example =
    run-Succeeds both true (some config) fork (nobody 1 ∷ exited 100 0 ∷ []) run_success

abbrev build : BuildInfo
build = record {
  version = codes "3.0.0";
  major_version = codes "3";
  revision = codes "abc";
  release_date = codes "2024";
  build_date = codes "2025";
  mysql_fork = codes "MySQL";
  mysql_client = some (codes "8.0");
  pgsql_client = none;
}

abbrev process : Process
process = record { pid = 7; started_at = codes "now" }

abbrev anywhere : Bytes → Bool
anywhere path = true

abbrev args : List Opt
args = config_file (codes "a.cfg") ∷ master_logfile (codes "m.log") ∷ []

abbrev files : Files
files = (codes "a.cfg", config) ∷ []

main_with : List Opt → List Event → Option ℕ
unfolding run_with main
main_with args events = main both build anywhere process args files fork events

main_success : main_with args (nobody 1 ∷ exited 100 0 ∷ []) ≡ some exit_success
unfolding main_with
main_success = refl

-- The default configuration is not there.
main_no_config : main_with [] (exited 100 0 ∷ []) ≡ some exit_failure
unfolding main_with
main_no_config = refl

main_help : main_with (help ∷ args) [] ≡ some exit_failure
unfolding main_with
main_help = refl

main-Outcome_example :
    Outcome both build anywhere process args files fork (nobody 1 ∷ exited 100 0 ∷ []) none
unfolding asked_text
main-Outcome_example =
    main-Outcome both build anywhere process args files fork (nobody 1 ∷ exited 100 0 ∷ [])

abbrev options : CliOptions
options = record { config_file_path = codes "a.cfg"; log_file_path = codes "m.log" }

abbrev reader : IniReader
reader = empty_reader (pos 0)

abbrev calls : List Call
calls = record_added (codes "one") ∷ partial_added (codes "two") ∷ []

init_logger-Redirected_example :
    Redirected anywhere files
      (codes "m.log")
      (codes "one\ntwo")
      (init_logger anywhere build options reader files).0
      (started anywhere build options reader files calls)
init_logger-Redirected_example =
    init_logger-Redirected anywhere build options reader files calls refl (tt, (tt, tt))
