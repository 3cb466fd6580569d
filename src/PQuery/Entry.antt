-- ===== src/PQuery/Entry.antt =====
-- `main` of src/main.cpp by its parts: the command line, the files that it chooses, and `PQuery::run`
-- of src/cPQuery.cpp.
use pquery.Prelude.{
  ℕ, Bool, true, false, not, List, [], ◌∷◌, ◌++◌, ◌≡◌, refl, ap, ◌∙◌, inl, inr, Option, none, some,
  if◌then◌else◌, Bytes, codes, lookup, All, Bool-cases,
}
use pquery.IniReader.Reader.{IniReader}
use pquery.WorkerConfig.Params.{BuildFlags}
use pquery.WorkerPool.Processes.{Event}
use pquery.WorkerPool.Spawning.{Fork}
use pquery.Logger.Stream.{Files}
use pquery.Logger.Calls.{Call}
use pquery.Logger.Texts.{IsText}
use pquery.Cli.Texts.{BuildInfo, client_lines}
use pquery.Cli.Options.{CliOptions, Opt, default_options, parse_cli_options}
use pquery.Cli.Chosen.{
  config_files, master_logfiles, last_or, asked_text, Chooses, parse_cli_options-Chooses,
}
use pquery.PQuery.Master.{exit_failure, init_config, run_workers, run, prepared}
use pquery.PQuery.Startup.{
  Process, records, version_info, prepare_to_run, main, with_config, run_prepared, logged,
}
use pquery.PQuery.Redirects.{log_path, init_logger-Redirected, init_logger_result}
use pquery.Logger.Operations.{Ended, returned, threw, LogState}

-- What the command line chooses.
abbrev pub chosen_options : List Opt → CliOptions
chosen_options args = record {
  config_file_path = last_or (codes "pquery.cfg") (config_files args);
  log_file_path = last_or [] (master_logfiles args);
}

records-IsText :
    (lines : List Bytes) (calls : List Call)
    → All IsText calls
    → All IsText (records lines ++ calls)
records-IsText [] calls h = h
records-IsText (line ∷ lines) calls h = (tt, records-IsText lines calls h)

version_info-IsText :
    (build : BuildInfo) (process : Process) → All IsText (version_info build process)
unfolding version_info
version_info-IsText build process =
    (tt, (tt, (tt, (tt, records-IsText (client_lines build) _ (tt, tt)))))

module _ (flags : BuildFlags) (build : BuildInfo) (can_open : Bytes → Bool) (process : Process)
    (args : List Opt) (files : Files) (fork : ℕ → Fork) (events : List Event) where
  -- Whether the log is opened.
  abbrev pub opens_log : CliOptions → Option IniReader → Bool
  opens_log options none = false
  opens_log options (some reader) = can_open (log_path build options reader)

  logged_returned :
      (reader : IniReader) (x : Ended × LogState)
      → x.0 ≡ returned
      → run_prepared flags fork events (logged reader x) ≡ run_workers flags reader fork events
  logged_returned reader (returned, s) e = refl
  logged_returned reader (threw, s) e = cc

  with_config-run :
      (options : CliOptions) (reader : Option IniReader)
      → run_prepared flags fork events (with_config can_open build process options files reader)
        ≡ prepared flags (opens_log options reader) fork events reader
  unfolding prepared
  with_config-run options none = refl
  with_config-run options (some reader) =
      elim (Bool-cases (can_open (log_path build options reader))) [
        | inl o ↦
            let r =
              init_logger-Redirected can_open build options reader files
                (version_info build process) o (version_info-IsText build process) in
            rw (r.is_opened, o) (logged_returned reader _ r.is_returned)
        | inr o ↦ rw (init_logger_result can_open build options reader files [] ∙ o, o) refl
      ]

  prepare_to_run_outcome :
      (options : CliOptions)
      → run_prepared flags fork events (prepare_to_run can_open build process options files)
        ≡ run flags
            (opens_log options (init_config (lookup options.config_file_path files)))
            (lookup options.config_file_path files)
            fork
            events
  unfolding prepare_to_run run
  prepare_to_run_outcome options =
      with_config-run options (init_config (lookup options.config_file_path files))

  -- The exit code of the program.
  abbrev pub Outcome : Option Bytes → Type 0
  Outcome none =
      main flags build can_open process args files fork events
      ≡ run flags
          (opens_log (chosen_options args)
            (init_config (lookup (chosen_options args).config_file_path files)))
          (lookup (chosen_options args).config_file_path files) fork events
  Outcome (some text) = main flags build can_open process args files fork events ≡ some exit_failure

  exit_with : Bool → CliOptions → Option ℕ
  exit_with go_on options =
      if not go_on
      then some exit_failure
      else run_prepared flags fork events (prepare_to_run can_open build process options files)

  exit_with-Outcome :
      (text : Option Bytes) (parsed : Bool × CliOptions × Bytes)
      → main flags build can_open process args files fork events ≡ exit_with parsed.0 parsed.1
      → Chooses args default_options text parsed
      → Outcome text
  unfolding exit_with
  exit_with-Outcome none (go_on, options, printed) m (g, c, l, _) =
      let same : options ≡ chosen_options args =
        λ i. record { config_file_path = c i; log_file_path = l i } in
      m
      ∙ ap (λ b. exit_with b options) g
      ∙ ap (exit_with true) same
      ∙ prepare_to_run_outcome (chosen_options args)
  exit_with-Outcome (some text) (go_on, options, printed) m (g, _) =
      m ∙ ap (λ b. exit_with b options) g

  -- The exit code of the program: with an option that asks for the help or the version it is
  -- EXIT_FAILURE; else it is that of run on the file named last by -c, or pquery.cfg, where
  -- initLogger has returned true exactly if the configuration is read and the path named last by
  -- -L, or else that of the configuration, can be opened. The version information never throws.
  pub main-Outcome : Outcome (asked_text build args)
  unfolding main exit_with
  main-Outcome =
      exit_with-Outcome (asked_text build args) (parse_cli_options build args default_options) refl
        (parse_cli_options-Chooses build args default_options)
