-- ===== src/WorkerPool/Spawning.antt =====
-- `spawnWorker` and `runAll` of src/cWorkerPool.cpp, in the master and in a worker's process.
use pquery.Prelude.{ℕ, ◌+◌, ◌*◌, Bool, true, false, List, [], ◌∷◌, ◌++◌, ltb, if◌then◌else◌}
use pquery.IniReader.Values.{DbType, mysql, pgsql, no_db}
use pquery.WorkerConfig.Params.{BuildFlags, WorkerParams}
use pquery.WorkerPool.Processes.{
  WorkerProc, Pool, Event, Waiting, finished, waiting, wait_for_workers,
}

pub data RetCode : Type 0 where
  error master child default : RetCode

-- What `fork` returns: an error, the PID in the master, with the time of the clock behind it, or 0 in
-- the new process, with what `executeTests` returns there.
pub data Fork : Type 0 where
  failed : Fork
  parent : ℕ → ℕ → Fork
  worker : Bool → Fork

abbrev pub seconds : ℕ → ℕ
seconds n = n * 1000000000

-- The members that are not set have their default.
unfoldable pub new_proc : ℕ → ℕ → WorkerParams → WorkerProc
new_proc pid now params = record {
  pid = pid;
  name = params.my_name;
  has_timeout = ltb 0 params.timeout_secs;
  deadline = if ltb 0 params.timeout_secs then now + seconds params.timeout_secs else 0;
  term_sent = false;
  kill_deadline = 0;
}

abbrev pub has_server : BuildFlags → DbType → Bool
has_server flags mysql = flags.have_mysql
has_server flags pgsql = flags.have_pgsql
has_server flags no_db = false

unfoldable pub spawn_worker : BuildFlags → Fork → WorkerParams → Pool → RetCode × Pool
unfolding new_proc
spawn_worker flags failed params p = (error, p)
spawn_worker flags (parent pid now) params p =
    (master, record p { active_workers = p.active_workers ++ new_proc pid now params ∷ [] })
spawn_worker flags (worker success) params p =
    if has_server flags params.dbtype then (if success then child else error, p) else (error, p)

-- The call has returned, or waits for its workers.
pub data Running : Type 0 where
  returned : Bool → Pool → Running
  running : Pool → Running

abbrev pub result_of : Waiting → Running
result_of (finished p) = returned p.retvalue p
result_of (waiting p) = running p

-- The loop over the parameters, each with its fork, then the wait.
unfoldable pub run_all : BuildFlags → List (Fork × WorkerParams) → List Event → Pool → Running
unfolding spawn_worker wait_for_workers
run_all flags [] events p = result_of (wait_for_workers events (record p { retvalue = true }))
run_all flags ((fork, params) ∷ others) events p =
    let (wrc, q) = spawn_worker flags fork params p in
    let rest = run_all flags others events q in
    elim wrc [ error ↦ returned false q | child ↦ returned true q | _ ↦ rest ]
