-- ===== src/Lib.antt =====
-- pquery is a stress tester for MySQL and PostgreSQL servers. A master process reads an INI file,
-- checks the section of every worker, forks a process for each, and waits for them. A worker loads an
-- SQL file into a query list and sends its statements to its server from several threads.
--
-- How the parts interact: main takes the options of the command line and runs PQuery, which reads
-- the configuration, opens the master's log with a Logger and starts the workers. INIReader gives
-- WorkerConfig the values of a section; WorkerConfig fills the workerParams, or refuses the whole
-- configuration; WorkerPool::runAll takes the list of them, forks, and waits with timeouts; in a
-- forked process DbWorker::executeTests loads the query list with SqlFileParser and runs the
-- threads, each with a Database of its own that counts its queries.
--
-- Conventions. A std::string is a list of bytes, the position in a text is what is left of it, and
-- errors are values. Numbers of a fixed width keep their wrap-around (% 2^w) where the program counts;
-- int64_t is a signed number (Prelude/Int) whose range is part of the statements. A loop is structural
-- recursion, or recursion on fuel with a theorem that says how much is enough.
--
-- Prelude: Boolean tests, lists over the native numbers, byte strings with the character classes of
-- the "C" locale and std::getline, maps as association lists, the loop over leading characters, and
-- signed integers.
--
-- SqlFileParser, src/cSqlFileParser.cpp:
--   Text        the functions that look at the text: trim, startsLineComment, isDelimiterCommand,
--               startsWithDelimiter, dollarQuoteOpenLength;
--   Scanner     the consume functions, one for each state, and splitStatements: a step gives the new
--               state and how far it moves the position beyond the character;
--   Grammar     the declarative description of a text: strings, names, comments, dollar quotes;
--   Cases, Bounds, Invariant, Size, Trim, Dialects, Decides, Pieces, Comments, Dollars, Lexing,
--   Lookahead, Lines, Scripts
--               the proofs, named for what they are about.
--
-- IniReader, src/cIniReader.cpp:
--   Line        isBlank, isComment, tryParseSection, tryParseKeyValue. The loop over the words of a
--               value has the length of the rest as its fuel: each round takes a character, and
--               Loop shows that the loop takes all words with it;
--   Reader      the constructor, read_line being the body of its loop, and Get;
--   Values      getDbType, getInfileType, GetBoolean and GetInteger, with the extraction of an int64_t
--               from a std::istringstream written out;
--   Syntax      the lines without the loops; Words, Loop, Assignments and Headers prove that the
--               code accepts just these, and Meaning what each does to the reader;
--   Files, Lookup
--               the whole file: first malformed line, sections, values;
--   Printer     configurations written as text; PrintedLines and RoundTrip read them back;
--   Numbers, Extraction, Integers
--               the integers.
--
-- WorkerConfig, src/cWorkerConfig.cpp, src/sWorkerParams.hpp, src/hCommon.hpp:
--   Params, Checks, Setup, Build
--               workerParams, checkIntRange, setupWorkerParams, buildAllWorkerParams. A failed check
--               gives its one message; what was written to the struct before is dropped, as by its
--               caller. HAVE_MYSQL and HAVE_PGSQL are a parameter;
--   Described   the parameters that a section is to give, key by key;
--   Ranges, Accepted, Sections
--               the sections that are accepted, and the run over all of them;
--   Decimals    std::to_string against GetInteger.
--
-- DbWorker, src/cDbWorker.cpp, src/cDatabase.cpp, src/cMysqlWorker.cpp,
-- src/cPgsqlWorker.cpp, src/cInfileParser.cpp, src/cMyGenLogParser.cpp, src/cMyBinLogParser.cpp:
--   Counters    performQuery's counters and calculateQueries;
--   Thread      workerThread's loop. Its fuel is one more than the number of queries, which is enough
--               below 2^32 queries; above, no fuel is. The client library is a record of operations
--               on a connection, and the random numbers are a function of the round.
--               A Logger is null, has a file that is not open, where it throws, or a file;
--   Worker      workerThread, spawnWorkerThreads, the loading of the query list, executeTests;
--   Logs        the files that workerThread opens for itself, and what it writes where it cannot connect;
--   Report      writeFinalReport, with the share as a parameter, and testConnection of both workers;
--   Bounded, Replays, Streaks, Returns, Unlogged, Quiet, Untroubled, Opened,
--   Connections
--               the end of the loop, the replay of the query list, the counters, the worker, a thread
--               whose log cannot be opened, a worker whose threads meet no exception, and what the
--               loop keeps of its connection.
--
-- WorkerPool, src/cWorkerPool.cpp:
--   Processes   waitForWorkers, over the list of what waitpid and the clock give, in nanoseconds;
--   Spawning    spawnWorker and runAll, over what fork returns;
--   ChildLog    reinitChildLog and logWorkerDetails, as calls of a Logger;
--   SpawnLog    what spawnWorker writes to the log, in the master and in the worker;
--   Signals, Outcome, Started, Passwords, Separate
--               the order of the signals, the result, the pool that runAll builds, what the log tells of
--               a password, and the logs of the master and a worker, which are separate.
--
-- Logger, src/cLogger.cpp:
--   Stream      std::ofstream on a disk of paths and contents. What can be opened is a parameter;
--   Operations  the class, one function for each member;
--   Calls       sequences of calls;
--   Journal     the abstract log: a path with its text, the path for the next file, and how the next
--               text is padded;
--   Writes, Refines, Texts, Untouched
--               the class against the journal, and the files that it leaves alone.
--
-- Cli, src/cCli.cpp: Texts has what is printed, Options parseCliOptions over what getopt_long_only
-- returns, and Chosen what it chooses.
--
-- PQuery, src/cPQuery.cpp, src/main.cpp:
--   Master      initConfig, and run behind prepareToRun;
--   Startup     initLogger, prepareToRun with logVersionInfo of src/cCli.cpp, and main;
--   Success, Redirects, Entry
--               what it takes that the exit code is 0, the files that the logs go to, and main by its
--               parts.
--
-- Clients, src/cMysqlDatabase.cpp, src/cPgsqlDatabase.cpp, src/cPgsqlDatabase.hpp:
--   Store       what a client library has allocated;
--   PgResult    the class with its moves; Ownership says that nothing leaks or is cleared twice;
--   MysqlOutput processQueryOutput, over the list of the results on the connection: a round takes one
--               of them. MysqlFreed and Rows are its proofs;
--   MysqlConnection
--               connect and the texts, over a store of handles; MysqlClosed;
--   MysqlClient the class behind the interface of the threads; MysqlWorker, a worker with it;
--   PgsqlOutput the texts of the PostgreSQL client; Settings has the grammar of connection
--               strings, with Conninfo; PgsqlErrors;
--   PgsqlClient the class behind the interface of the threads; PgsqlWorker and PgsqlCleared, a worker
--               and a thread with it; PgsqlTests has its runs.
--
-- Each part has an Examples module with runs of the definitions, and the theorems at concrete inputs.
--
-- Not modelled: the client libraries libmysqlclient and libpq, whose results are arguments; getopt;
-- a full disk, and two streams on one file; what is printed to the standard error, but for the
-- message of a failed connection test; time stamps of queries; a worker's log that cannot be
-- written to while its threads run; what executeTests writes there, which is an argument of
-- spawnWorker; and the interleaving of threads, which share only the query list, which none
-- changes, counters that they add to, and a Logger behind its mutex. The line number of INIReader
-- has no limit, where the program's int ends at 2^31 lines.
pub mod Prelude
pub mod SqlFileParser
pub mod IniReader
pub mod WorkerConfig
pub mod DbWorker
pub mod WorkerPool
pub mod Logger
pub mod Cli
pub mod PQuery
pub mod Clients
