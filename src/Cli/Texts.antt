-- ===== src/Cli/Texts.antt =====
-- The texts that src/cCli.cpp prints.
use pquery.Prelude.{List, [], ◌∷◌, ◌++◌, Option, none, some, Bytes, codes}

-- What the build defines, with the versions of the two client libraries where it has them.
pub record BuildInfo : Type 0 where
  pub version : Bytes
  pub major_version : Bytes
  pub revision : Bytes
  pub release_date : Bytes
  pub build_date : Bytes
  pub mysql_fork : Bytes
  pub mysql_client : Option Bytes
  pub pgsql_client : Option Bytes

abbrev mysql_lines : Bytes → Option Bytes → List Bytes
mysql_lines fork none = []
mysql_lines fork (some info) =
    (codes "* PQuery MySQL client library: " ++ (fork ++ (codes " v." ++ info))) ∷ []

abbrev pgsql_lines : Option Bytes → List Bytes
pgsql_lines none = []
pgsql_lines (some info) = (codes "* PQuery PgSQL client library: PgSQL v." ++ info) ∷ []

-- The lines on the client libraries.
unfoldable pub client_lines : BuildInfo → List Bytes
client_lines build =
    mysql_lines build.mysql_fork build.mysql_client ++ pgsql_lines build.pgsql_client

abbrev lines_text : List Bytes → Bytes
lines_text [] = []
lines_text (line ∷ lines) = line ++ (codes "\n" ++ lines_text lines)

-- `showVersion`.
unfoldable pub version_text : BuildInfo → Bytes
unfolding client_lines
version_text build = lines_text (
    (codes "* PQuery version: " ++ build.version)
    ∷ (codes "* PQuery revision: " ++ build.revision)
    ∷ (codes "* PQuery release date: " ++ build.release_date)
    ∷ (codes "* PQuery build date: " ++ build.build_date)
    ∷ client_lines build)

-- What stands in front of the example.
unfoldable pub usage_text : Bytes
usage_text =
    codes " - Usage: pquery --config-file=pquery.cfg\n"
    ++ codes " - CLI params has been replaced by config file (INI format)\n"
    ++ codes " - You can redefine any global param=value pair in host-specific section\n"
    ++ codes "\n"
    ++ codes "# Config example:\n"
    ++ codes "\n"

-- The example of a configuration.
unfoldable pub master_text : Bytes
master_text =
    codes "# \"#\" and \";\" are comments here\n"
    ++ codes "############################\n"
    ++ codes "# Section for master process\n"
    ++ codes "[master]\n"
    ++ codes "\n"
    ++ codes "# Directory to store logs\n"
    ++ codes "logdir = /tmp\n"
    ++ codes "\n"
    ++ codes "# Logfile for master process\n"
    ++ codes "logfile = pquery3-master.log\n"
    ++ codes "\n"
    ++ codes "############################\n"

unfoldable pub database_text : Bytes
database_text =
    codes "[node0.domain.tld]\n"
    ++ codes "\n"
    ++ codes "# The database to connect to\n"
    ++ codes "database = test\n"
    ++ codes "\n"
    ++ codes "# Database type (MySQL, PostgreSQL), default is MySQL\n"
    ++ codes "dbtype = MySQL\n"
    ++ codes "\n"
    ++ codes "# IP address to connect to, default is AF_UNIX\n"
    ++ codes "address = <empty>\n"
    ++ codes "\n"
    ++ codes "# The port to connect to\n"
    ++ codes "port = 3306\n"
    ++ codes "\n"

unfoldable pub infile_text : Bytes
infile_text =
    codes "# The SQL input file\n"
    ++ codes "infile = pquery.sql\n"
    ++ codes "\n"
    ++ codes "# Infile type: SQL only (GENLOG and BINLOG are not implemented yet)\n"
    ++ codes "infiletype = SQL\n"
    ++ codes "\n"
    ++ codes "# Maximum file size to be loaded to RAM\n"
    ++ codes "query-list-maxsize = 1G\n"
    ++ codes "\n"
    ++ codes "# Overall timeout in seconds for this worker, 0 = no timeout\n"
    ++ codes "timeout = 0\n"
    ++ codes "\n"
    ++ codes "# Connection timeout in seconds\n"
    ++ codes "connect-timeout = 60\n"
    ++ codes "\n"
    ++ codes "# Directory to store logs\n"
    ++ codes "logdir = /tmp\n"
    ++ codes "\n"
    ++ codes "# Socket file to use\n"
    ++ codes "socket = /tmp/my.sock\n"
    ++ codes "\n"
    ++ codes "# The DB userID to be used\n"
    ++ codes "user = test\n"
    ++ codes "\n"
    ++ codes "# The DB user's password\n"
    ++ codes "password = test\n"
    ++ codes "\n"

unfoldable pub logging_text : Bytes
logging_text =
    codes "# The number of threads to use by worker\n"
    ++ codes "threads = 1\n"
    ++ codes "\n"
    ++ codes "# The number of queries per thread\n"
    ++ codes "queries-per-thread = 10000\n"
    ++ codes "\n"
    ++ codes "# Duplicates the log to console when threads=1 and workers=1\n"
    ++ codes "verbose = No\n"
    ++ codes "\n"
    ++ codes "# Log all queries\n"
    ++ codes "log-all-queries = No\n"
    ++ codes "\n"
    ++ codes "# Log succeeded queries\n"
    ++ codes "log-succeeded-queries = No\n"
    ++ codes "\n"
    ++ codes "# Log failed queries\n"
    ++ codes "log-failed-queries = No\n"
    ++ codes "\n"

unfoldable pub other_text : Bytes
other_text =
    codes "# Execute SQL randomly or sequentially\n"
    ++ codes "shuffle = No\n"
    ++ codes "\n"
    ++ codes "# Extended output of query result\n"
    ++ codes "log-query-statistics = No\n"
    ++ codes "\n"
    ++ codes "# Log query duration in milliseconds\n"
    ++ codes "log-query-duration = No\n"
    ++ codes "\n"
    ++ codes "# Log output from executed query (separate log)\n"
    ++ codes "log-client-output = No\n"
    ++ codes "\n"
    ++ codes "# Log query numbers along the query results and statistics\n"
    ++ codes "log-query-numbers = No\n"
    ++ codes "\n"
    ++ codes "# default for \"run\" is No, need to set it to YES explicitly\n"
    ++ codes "run = Yes\n"
    ++ codes "\n"
    ++ codes "############################\n"
    ++ codes "[node1.domain.tld]\n"
    ++ codes "address = 10.10.6.11\n"
    ++ codes "\n"

-- The configuration that the help shows.
unfoldable pub config_example : Bytes
unfolding master_text database_text infile_text logging_text other_text
config_example = master_text ++ (database_text ++ (infile_text ++ (logging_text ++ other_text)))

-- `showHelp`.
unfoldable pub help_text : Bytes
unfolding usage_text config_example
help_text = usage_text ++ config_example
