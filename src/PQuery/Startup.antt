-- ===== src/PQuery/Startup.antt =====
-- How the master starts: `initLogger`, `prepareToRun` and `run` of src/cPQuery.cpp with
-- `logVersionInfo` of src/cCli.cpp, and `main` of src/main.cpp.
use pquery.Prelude.{
  ℕ, Bool, not, List, [], ◌∷◌, ◌++◌, Option, none, some, if◌then◌else◌, Bytes, codes, is_empty,
  lookup, pos,
}
use pquery.IniReader.Reader.{IniReader, get}
use pquery.WorkerConfig.Params.{BuildFlags}
use pquery.WorkerConfig.Checks.{to_string}
use pquery.WorkerPool.Processes.{Event}
use pquery.WorkerPool.Spawning.{Fork}
use pquery.Logger.Stream.{Files}
use pquery.Logger.Operations.{
  LogState, Ended, returned, threw, new_logger, set_log_file_path, init_log_file,
}
use pquery.Logger.Calls.{Call, record_added, sequence}
use pquery.Cli.Texts.{BuildInfo, client_lines}
use pquery.Cli.Options.{CliOptions, Opt, default_options, parse_cli_options}
use pquery.PQuery.Master.{exit_failure, init_config, run_workers}

-- The path that the configuration gives to the log of the master.
unfoldable pub master_log_file : BuildInfo → IniReader → Bytes
unfolding get
master_log_file build reader =
    get reader (codes "master") (codes "logdir") (codes "/tmp")
    ++ (codes "/"
        ++ get reader (codes "master") (codes "logfile")
            (codes "pquery" ++ (build.major_version ++ codes "-master.log")))

unfoldable pub with_path : Bytes → LogState → LogState
unfolding set_log_file_path
with_path path s = if not (is_empty path) then set_log_file_path path s else s

-- `initLogger`, which makes the logger.
unfoldable pub init_logger :
    (Bytes → Bool) → BuildInfo → CliOptions → IniReader → Files → Bool × LogState
unfolding new_logger with_path init_log_file master_log_file
init_logger can_open build options reader files =
    init_log_file can_open (master_log_file build reader)
      (with_path options.log_file_path (record { logger = new_logger; files = files }))

-- The process, with the time that it starts at as `ctime` writes it.
pub record Process : Type 0 where
  pub pid : ℕ
  pub started_at : Bytes

abbrev pub records : List Bytes → List Call
records [] = []
records (line ∷ lines) = record_added line ∷ records lines

-- The calls of `logVersionInfo`.
unfoldable pub version_info : BuildInfo → Process → List Call
unfolding client_lines to_string
version_info build process =
    record_added (codes "* PQuery version: " ++ build.version)
    ∷ record_added (codes "* PQuery revision: " ++ build.revision)
    ∷ record_added (codes "* PQuery revision date: " ++ build.release_date)
    ∷ record_added (codes "* PQuery build date: " ++ build.build_date)
    ∷ (records (client_lines build)
        ++ record_added (
            codes "* Pquery master with PID "
            ++ (to_string (pos process.pid) ++ (codes " started at " ++ process.started_at)))
          ∷ [])

-- `prepareToRun` has returned false, with the exit code behind it; has thrown; or has returned true.
pub data Prepared : Type 0 where
  refused : Prepared
  aborted : LogState → Prepared
  prepared : IniReader → LogState → Prepared

abbrev pub logged : IniReader → Ended × LogState → Prepared
logged reader (returned, s) = prepared reader s
logged reader (threw, s) = aborted s

abbrev pub with_log : (Bytes → Bool) → BuildInfo → Process → IniReader → Bool × LogState → Prepared
with_log can_open build process reader (opened, s) =
    if not opened then refused else logged reader (sequence can_open (version_info build process) s)

abbrev pub with_config :
    (Bytes → Bool) → BuildInfo → Process → CliOptions → Files → Option IniReader → Prepared
with_config can_open build process options files none = refused
with_config can_open build process options files (some reader) =
    with_log can_open build process reader (init_logger can_open build options reader files)

-- The configuration is read from the disk.
unfoldable pub prepare_to_run : (Bytes → Bool) → BuildInfo → Process → CliOptions → Files → Prepared
unfolding init_config init_logger version_info sequence lookup
prepare_to_run can_open build process options files =
    with_config can_open build process options files
      (init_config (lookup options.config_file_path files))

-- What is left of `run` behind `prepareToRun`; an exception is caught in `main`.
abbrev pub run_prepared : BuildFlags → (ℕ → Fork) → List Event → Prepared → Option ℕ
run_prepared flags fork events refused = some exit_failure
run_prepared flags fork events (aborted s) = some exit_failure
run_prepared flags fork events (prepared reader s) = run_workers flags reader fork events

-- `main`: the exit code, or `none` while workers run.
unfoldable pub main :
    BuildFlags
    → BuildInfo
    → (Bytes → Bool)
    → Process
    → List Opt
    → Files
    → (ℕ → Fork)
    → List Event
    → Option ℕ
unfolding parse_cli_options prepare_to_run run_workers
main flags build can_open process args files fork events =
    let (go_on, options, printed) = parse_cli_options build args default_options in
    if not go_on
    then some exit_failure
    else run_prepared flags fork events (prepare_to_run can_open build process options files)
