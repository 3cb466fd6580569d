-- ===== src/WorkerConfig/Examples.antt =====
-- Runs of `WorkerConfig` of src/cWorkerConfig.cpp, and its theorems at concrete inputs.
use pquery.Prelude.{
  Bool, ℕ, true, false, List, [], ◌∷◌, ◌++◌, ◌≡◌, ◌↔◌, refl, none, some, Bytes, codes, map,
  get_lines, equal, lookup, to_lower, negsuc, is_space, arith,
}
use pquery.IniReader.Line.{is_blank_line, is_comment, try_parse_section, try_parse_key_value}
use pquery.IniReader.Reader.{IniReader, ini_reader, get, Configuration}
use pquery.IniReader.Values.{
  mysql, sql, extract_int, multiplier, overflows, extract_char, get_integer, get_db_type,
  get_infile_type, get_boolean, ok,
}
use pquery.WorkerConfig.Params.{BuildFlags, WorkerParams}
use pquery.WorkerConfig.Checks.{Checked, valid, invalid, ◌>>=◌, to_string}
use pquery.WorkerConfig.Setup.{params_of, setup_worker_params}
use pquery.WorkerConfig.Described.{Accepted}
use pquery.WorkerConfig.Accepted.{setup_worker_params_iff}
use pquery.WorkerConfig.Build.{Building, build_all_worker_params}
use pquery.WorkerConfig.Sections.{Gives, Ends, build_all_worker_params-Ends}
use pquery.IniReader.Syntax.{nil}
use pquery.IniReader.Printer.{print_config, IsPrintable, is_mark}
use pquery.IniReader.RoundTrip.{last_value}
use pquery.WorkerConfig.Decimals.{get_integer-print_config}

abbrev config : Bytes
config =
    codes "[MASTER]\nrun = true\n[a]\nrun = yes\nport = 3307\nthreads = 1k\ntimeout = 4294967295\n"
    ++ codes
        "[b]\nport = 0\n[c]\nrun = 1\ndbtype = pgsql\nport = 65536\n[d]\nrun = on\ninfiletype = genlog\n"

reader : IniReader
unfolding ini_reader get_lines is_blank_line is_comment try_parse_section try_parse_key_value equal
reader = ini_reader (some config)

abbrev both : BuildFlags
both = record { have_mysql = true; have_pgsql = true }

ports : Checked WorkerParams → Checked (List ℕ)
ports c = do p ← c; valid (p.port ∷ p.threads ∷ p.queries_per_thread ∷ p.timeout_secs ∷ [])

setup : BuildFlags → Bytes → Checked (List ℕ)
unfolding ports reader setup_worker_params get_integer get_db_type get_infile_type get_boolean get
    lookup to_lower extract_int multiplier overflows extract_char
setup flags section = ports (setup_worker_params flags reader section)

setup_accepted : setup both (codes "a") ≡ valid (3307 ∷ 1024 ∷ 10000 ∷ 4294967295 ∷ [])
unfolding setup
setup_accepted = refl

setup_unsupported :
    setup (record { have_mysql = false; have_pgsql = true }) (codes "a")
    ≡ invalid (codes "pquery is not compiled with support for MySQL")
unfolding setup
setup_unsupported = refl

setup_port : setup both (codes "c") ≡ invalid (codes "port = 65536 out of range [1..65535]")
unfolding setup
setup_port = refl

to_string_negative : to_string (negsuc 99) ≡ codes "-100"
unfolding to_string
to_string_negative = refl

abbrev empty : Building
empty = record { out = []; config_ok = false; log = none; errors = [] }

build_errors :
    (build_all_worker_params both reader empty).errors
    ≡ map codes (
        "=> Config error in section [c]: port = 65536 out of range [1..65535]"
        ∷ "=> Config error in section [d]: infiletype GENLOG/BINLOG is not implemented yet, only SQL is supported"
        ∷ "=> Config validation failed, no workers started" ∷ [])
unfolding setup build_all_worker_params
build_errors = refl

a_params : WorkerParams
unfolding reader
a_params = params_of reader (codes "a") mysql sql (record {
  port = 3307;
  threads = 1024;
  queries_per_thread = 10000;
  query_list_maxsize = 1073741824;
  timeout_secs = 4294967295;
  connect_timeout_secs = 60;
})

setup_a : setup_worker_params both reader (codes "a") ≡ valid a_params
unfolding setup a_params
setup_a = refl

setup_worker_params_iff_example :
    (setup_worker_params both reader (codes "a") ≡ valid a_params)
    ↔ Accepted both reader (codes "a") a_params
setup_worker_params_iff_example = setup_worker_params_iff both reader (codes "a") a_params

build_all_worker_params-Ends_example :
    (out : List WorkerParams) × (messages : List Bytes) × Gives both reader reader.sections out
      messages
    × Ends empty (build_all_worker_params both reader empty) out messages
build_all_worker_params-Ends_example = build_all_worker_params-Ends both reader empty

-- The key that is documented has no effect.
abbrev succeeded_config : Bytes
succeeded_config = codes "[a]\nlog-succeeded-queries = yes\n[b]\nlog-succeded-queries = yes\n"

logs_succeeded : Bytes → Checked Bool
unfolding setup
logs_succeeded section = do
  p ← setup_worker_params both (ini_reader (some succeeded_config)) section
  valid p.log_succeeded_queries

documented_key :
    (logs_succeeded (codes "a") ≡ valid false) × (logs_succeeded (codes "b") ≡ valid true)
unfolding logs_succeeded
documented_key = (refl, refl)

abbrev printable : Configuration
printable = (codes "a", (codes "k", codes "-42") ∷ []) ∷ []

printable-IsPrintable : IsPrintable printable
unfolding is_space is_mark
printable-IsPrintable = (
  (λ e. cc, (omega arith, tt), (refl, tt)),
  (
    (
      (refl, tt),
      refl,
      (refl, tt),
      record {
        word = codes "-42";
        tail = [];
        splits = refl;
        is_word = (refl, (refl, (refl, tt)));
        is_tail = nil;
      },
      (refl, (refl, (refl, tt))),
    ),
    tt,
  ),
  tt,
)

written : last_value (codes "a") (codes "k") printable none ≡ some (to_string (negsuc 41))
unfolding equal to_string
written = refl

get_integer-print_config_example :
    get_integer (ini_reader (some (print_config printable))) (codes "a") (codes "k") (negsuc 0)
    ≡ ok (negsuc 41)
get_integer-print_config_example =
    get_integer-print_config printable (codes "a") (codes "k") (negsuc 41) (negsuc 0)
      printable-IsPrintable written (omega arith, omega arith)
