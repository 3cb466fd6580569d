-- ===== src/Cli/Examples.antt =====
-- Runs of the command line of src/cCli.cpp, and its theorem at a concrete input.
use pquery.Prelude.{true, List, [], ◌∷◌, ◌≡◌, refl, none, some, codes, pos, get_lines, equal}
use pquery.IniReader.Line.{is_blank_line, is_comment, try_parse_section, try_parse_key_value}
use pquery.IniReader.Reader.{ini_reader}
use pquery.Cli.Texts.{BuildInfo, config_example}
use pquery.Cli.Options.{
  Opt, config_file, master_logfile, help, other, default_options, parse_cli_options,
}
use pquery.Cli.Chosen.{Chooses, asked_text, parse_cli_options-Chooses}

abbrev build : BuildInfo
build = record {
  version = codes "3.0.0";
  major_version = codes "3";
  revision = codes "abc";
  release_date = codes "2024";
  build_date = codes "2025";
  mysql_fork = codes "MySQL";
  mysql_client = some (codes "8.0");
  pgsql_client = none;
}

abbrev results : List Opt
results =
    config_file (codes "a.cfg")
    ∷ other
    ∷ master_logfile (codes "m.log")
    ∷ config_file (codes "b.cfg")
    ∷ []

-- The last argument counts.
parse_results :
    parse_cli_options build results default_options
    ≡ (true, record { config_file_path = codes "b.cfg"; log_file_path = codes "m.log" }, [])
unfolding parse_cli_options
parse_results = refl

-- The configuration that the help shows is read without an error.
example_read :
    ((ini_reader (some config_example)).error ≡ pos 0)
    × ((ini_reader (some config_example)).sections
        ≡ codes "master" ∷ codes "node0.domain.tld" ∷ codes "node1.domain.tld" ∷ [])
unfolding ini_reader get_lines is_blank_line is_comment try_parse_section try_parse_key_value equal
    config_example
example_read = (refl, refl)

parse_cli_options-Chooses_example :
    Chooses
      (help ∷ results)
      default_options
      (asked_text build (help ∷ results))
      (parse_cli_options build (help ∷ results) default_options)
parse_cli_options-Chooses_example = parse_cli_options-Chooses build (help ∷ results) default_options
