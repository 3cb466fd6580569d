-- ===== src/Cli/Options.antt =====
-- `parseCliOptions` of src/cCli.cpp.
use pquery.Prelude.{Bool, true, false, List, [], ◌∷◌, Bytes, codes}
use pquery.Cli.Texts.{BuildInfo, version_text, help_text}

pub record CliOptions : Type 0 where
  pub config_file_path : Bytes
  pub log_file_path : Bytes

abbrev pub default_options : CliOptions
default_options = record { config_file_path = codes "pquery.cfg"; log_file_path = [] }

-- What `getopt_long_only` returns, with `optarg`, before it returns -1; `other` is an option that it
-- does not know, or one without its argument.
pub data Opt : Type 0 where
  config_file master_logfile : Bytes → Opt
  help version other : Opt

-- The result, the options, and what is printed.
unfoldable pub parse_cli_options : BuildInfo → List Opt → CliOptions → Bool × CliOptions × Bytes
unfolding version_text help_text
parse_cli_options build [] opts = (true, opts, [])
parse_cli_options build (config_file path ∷ results) opts =
    parse_cli_options build results (record opts { config_file_path = path })
parse_cli_options build (master_logfile path ∷ results) opts =
    parse_cli_options build results (record opts { log_file_path = path })
parse_cli_options build (help ∷ results) opts = (false, opts, help_text)
parse_cli_options build (version ∷ results) opts = (false, opts, version_text build)
parse_cli_options build (other ∷ results) opts = parse_cli_options build results opts
