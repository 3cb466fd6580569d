-- ===== src/Cli/Chosen.antt =====
-- What `parseCliOptions` of src/cCli.cpp makes of its arguments.
use pquery.Prelude.{Bool, true, false, List, [], ◌∷◌, ◌≡◌, refl, Option, none, some, Bytes}
use pquery.Cli.Texts.{BuildInfo, version_text, help_text}
use pquery.Cli.Options.{
  CliOptions, Opt, config_file, master_logfile, help, version, other, parse_cli_options,
}

-- The arguments that are given to an option, in their order.
unfoldable pub config_files : List Opt → List Bytes
config_files [] = []
config_files (config_file path ∷ results) = path ∷ config_files results
config_files (_ ∷ results) = config_files results

unfoldable pub master_logfiles : List Opt → List Bytes
master_logfiles [] = []
master_logfiles (master_logfile path ∷ results) = path ∷ master_logfiles results
master_logfiles (_ ∷ results) = master_logfiles results

abbrev pub last_or : Bytes → List Bytes → Bytes
last_or default_value [] = default_value
last_or default_value (path ∷ paths) = last_or path paths

-- The text of the first option that asks for one.
unfoldable pub asked_text : BuildInfo → List Opt → Option Bytes
asked_text build [] = none
asked_text build (help ∷ results) = some help_text
asked_text build (version ∷ results) = some (version_text build)
asked_text build (_ ∷ results) = asked_text build results

abbrev pub Chooses : List Opt → CliOptions → Option Bytes → Bool × CliOptions × Bytes → Type 0
Chooses results opts none (go_on, chosen, printed) =
    (go_on ≡ true)
    × (chosen.config_file_path ≡ last_or opts.config_file_path (config_files results))
    × (chosen.log_file_path ≡ last_or opts.log_file_path (master_logfiles results))
    × (printed ≡ [])
Chooses results opts (some text) (go_on, chosen, printed) = (go_on ≡ false) × (printed ≡ text)

-- parseCliOptions returns false and prints the text of the first option that asks for the help or
-- the version, where there is one; else it returns true, prints nothing, and each path is that of
-- the last option for it, or the one before.
pub parse_cli_options-Chooses :
    (build : BuildInfo) (results : List Opt) (opts : CliOptions)
    → Chooses results opts (asked_text build results) (parse_cli_options build results opts)
unfolding parse_cli_options config_files master_logfiles asked_text
parse_cli_options-Chooses build [] opts = (refl, refl, refl, refl)
parse_cli_options-Chooses build (config_file path ∷ results) opts =
    parse_cli_options-Chooses build results (record opts { config_file_path = path })
parse_cli_options-Chooses build (master_logfile path ∷ results) opts =
    parse_cli_options-Chooses build results (record opts { log_file_path = path })
parse_cli_options-Chooses build (help ∷ results) opts = (refl, refl)
parse_cli_options-Chooses build (version ∷ results) opts = (refl, refl)
parse_cli_options-Chooses build (other ∷ results) opts =
    parse_cli_options-Chooses build results opts
