-- ===== src/WorkerPool/Examples.antt =====
-- Runs of the pool of src/cWorkerPool.cpp, and its theorems at concrete inputs.
use pquery.Prelude.{
  pos, some, ◌≢◌, ◌++◌, ℕ, true, false, List, [], ◌∷◌, ◌≡◌, ◌↔◌, refl, codes, All, map, Bytes, Bool,
  take, lookup, equal, equal_iff,
}
use pquery.IniReader.Values.{mysql, sql}
use pquery.WorkerConfig.Params.{BuildFlags, WorkerParams}
use pquery.WorkerPool.Processes.{
  Event, exited, nobody, sigterm, sigkill, wait_for_workers, exit_status, exceeded_timeout,
  not_responding, message,
}
use pquery.WorkerPool.Spawning.{Fork, parent, worker, run_all, Running, seconds}
use pquery.WorkerPool.Signals.{IsOrderly, wait_for_workers-IsOrderly, pool_of, no_signal}
use pquery.WorkerPool.Outcome.{Good, wait_for_workers_verdict}
use pquery.WorkerPool.Started.{
  Start, Reports, empty_pool, pool_with, pool_left, proc_of, fork_of, run_all-Reports,
}
use pquery.Logger.Stream.{content_of}
use pquery.Logger.Operations.{returned, LogState, new_logger}
use pquery.Logger.Calls.{sequence}
use pquery.WorkerPool.ChildLog.{worker_log, reinit_child_log, log_worker_details}
use pquery.Logger.Texts.{Writing, texts_of}
use pquery.WorkerPool.SpawnLog.{spawn_log, child_calls, master_line}
use pquery.WorkerPool.Separate.{spawn_log-Separate}
use pquery.WorkerPool.Passwords.{with_password, log_worker_details_secret}

abbrev both : BuildFlags
both = record { have_mysql = true; have_pgsql = true }

abbrev with_timeout : ℕ → WorkerParams
with_timeout timeout = record {
  my_name = codes "node0";
  database = codes "test";
  dbtype = mysql;
  address = codes "localhost";
  socket = [];
  username = codes "test";
  password = [];
  infile = codes "pquery.sql";
  infiletype = sql;
  logdir = codes "/tmp";
  port = 3306;
  threads = 1;
  queries_per_thread = 10;
  query_list_maxsize = 1024;
  verbose = false;
  log_all_queries = false;
  log_failed_queries = true;
  log_succeeded_queries = false;
  log_query_statistics = false;
  log_query_duration = false;
  log_client_output = false;
  log_query_numbers = false;
  shuffle = true;
  timeout_secs = timeout;
  connect_timeout_secs = 60;
}

-- Two workers, the second one with a timeout of five seconds.
abbrev starts : List Start
starts = (100, 0, with_timeout 0) ∷ (101, 0, with_timeout 5) ∷ []

-- The second worker does not end, and is killed.
abbrev events : List Event
events =
    nobody (seconds 1)
    ∷ exited 100 0
    ∷ nobody (seconds 6)
    ∷ nobody (seconds 15)
    ∷ nobody (seconds 17)
    ∷ exited 101 9
    ∷ []

run : Running
unfolding run_all
run = run_all both (map fork_of starts) events empty_pool

run_log :
    (pool_left run).log
    ≡ exit_status 101 9
      ∷ not_responding (codes "node0") 101
      ∷ exceeded_timeout (codes "node0") 101
      ∷ exit_status 100 0
      ∷ []
unfolding run
run_log = refl

run_kills :
    (pool_left run).kills
    ≡ record { target = 101; signal = sigkill; at = seconds 17 }
      ∷ record { target = 101; signal = sigterm; at = seconds 6 }
      ∷ []
unfolding run
run_kills = refl

exit_message : message (exit_status 101 9) ≡ codes "=> Exit status of child with PID 101: 9"
unfolding message
exit_message = refl

run_all-Reports_example : Reports (run_all both (map fork_of starts) events empty_pool)
run_all-Reports_example = run_all-Reports both starts events

wait_for_workers-IsOrderly_example : IsOrderly (pool_of (wait_for_workers events empty_pool))
wait_for_workers-IsOrderly_example =
    wait_for_workers-IsOrderly events (record { justified = no_signal; marked = tt })

wait_for_workers_verdict_example :
    let q = pool_of (wait_for_workers events (pool_with (map proc_of starts))) in
    (q.retvalue ≡ true) ↔ All Good q.log
unfolding run
wait_for_workers_verdict_example =
    wait_for_workers_verdict events {p = pool_with (map proc_of starts)}
      (record { no_record = refl; ok = refl; unmarked = (refl, (refl, tt)) })

abbrev anywhere : Bytes → Bool
anywhere path = true

abbrev no_log : LogState
no_log = record { logger = new_logger; files = [] }

log_worker_details_secret_example :
    log_worker_details anywhere (with_password (codes "secret") (with_timeout 0)) no_log
    ≡ log_worker_details anywhere (with_password (codes "s") (with_timeout 0)) no_log
log_worker_details_secret_example =
    log_worker_details_secret anywhere (codes "secret") (codes "s") (with_timeout 0) no_log refl

abbrev child_log : Bytes
child_log = codes "/tmp/node0_worker.log"

-- The log of a worker's process, up to its first lines.
child_details :
    take 79 (
      content_of (
        lookup child_log
          (log_worker_details anywhere
            (with_timeout 0)
            (reinit_child_log anywhere (codes "/tmp") (codes "node0") no_log)).1.files))
    ≡ codes "#######################################\n## Config name: node0\n## DB type: MySQL"
unfolding log_worker_details reinit_child_log new_logger sequence equal
child_details = refl

-- A verbose worker of a program with no client for MySQL.
abbrev pgsql_only : BuildFlags
pgsql_only = record { have_mysql = false; have_pgsql = true }

abbrev master_log : Bytes
master_log = codes "/tmp/master.log"

abbrev in_master : LogState
in_master = record {
  logger = record {
    log_file = record {
      path = some master_log;
      failed = false;
      fill = b' ';
      width = pos 0;
      precision = pos 6;
      fixed = false;
    };
    pending_log_file_path = [];
  };
  files = (master_log, codes "-> Started\n") ∷ [];
}

abbrev spawned : Fork → LogState
spawned fork =
    (spawn_log anywhere pgsql_only (codes "/tmp") [] fork (with_timeout 0) [] in_master).1

-- The files of the master and of the worker.
spawned_files :
    ((spawned (parent 101 0)).files
      ≡ (master_log, codes "-> Started\n-> Waiting for created worker 101\n") ∷ [])
    × ((spawned (worker true)).files
        ≡ (master_log, codes "-> Started\n")
          ∷ (child_log, codes "=> PQuery is not compiled with MySQL\n")
          ∷ [])
unfolding spawn_log sequence equal
spawned_files = (refl, refl)

in_master-Writing : Writing master_log (codes "-> Started\n") in_master
unfolding equal lookup
in_master-Writing = record { ready = refl; target = (refl, refl) }

other_log : worker_log (codes "/tmp") (codes "node0") ≢ master_log
unfolding worker_log equal
other_log =
    λ e. let same : false ≡ true = (equal_iff (codes "/tmp/node0_worker.log") master_log).1 e in cc

spawn_log-Separate_example :
    let parent_log =
      spawn_log anywhere pgsql_only
        (codes "/tmp")
        []
        (parent 101 0)
        (with_timeout 0)
        []
        in_master in
    let worker_log_state =
      spawn_log anywhere pgsql_only (codes "/tmp") [] (worker true) (with_timeout 0) [] in_master in
    ((parent_log.0 ≡ returned)
      × Writing master_log
          (codes "-> Started\n" ++ (master_line [] (parent 101 0) ++ codes "\n"))
          parent_log.1)
    × ((worker_log_state.0 ≡ returned)
        × Writing
            (worker_log (codes "/tmp") (codes "node0"))
            (texts_of (child_calls pgsql_only (with_timeout 0) []))
            worker_log_state.1
        × (lookup master_log worker_log_state.1.files ≡ lookup master_log in_master.files))
spawn_log-Separate_example =
    spawn_log-Separate anywhere pgsql_only (codes "/tmp") [] (with_timeout 0) [] in_master 101 0
      true in_master-Writing refl tt other_log refl
