-- ===== src/WorkerPool/SpawnLog.antt =====
-- What `spawnWorker` of src/cWorkerPool.cpp writes to the log, in the master and in a worker's
-- process, which has a copy of the logger.
use pquery.Prelude.{Bool, List, [], ◌∷◌, ◌++◌, if◌then◌else◌, Bytes, codes, pos}
use pquery.WorkerConfig.Params.{BuildFlags, WorkerParams, dbtype_str}
use pquery.WorkerConfig.Checks.{to_string}
use pquery.Logger.Operations.{LogState, Ended, flush_log, add_record_to_log}
use pquery.Logger.Calls.{Call, record_added, and_then, sequence}
use pquery.WorkerPool.Spawning.{Fork, failed, parent, worker, has_server}
use pquery.WorkerPool.ChildLog.{reinit_child_log, worker_details}

-- The line of the master. `strerror` is the text of the error of `fork`.
unfoldable pub master_line : Bytes → Fork → Bytes
unfolding to_string
master_line strerror failed = codes "=> Cannot fork() child process: " ++ strerror
master_line strerror (parent pid now) =
    codes "-> Waiting for created worker " ++ to_string (pos pid)
master_line strerror (worker success) = []

-- The calls of the logger of a worker, where `calls` are those of `executeTests`.
unfoldable pub child_calls : BuildFlags → WorkerParams → List Call → List Call
unfolding worker_details dbtype_str
child_calls flags p calls =
    (if p.verbose then worker_details p else [])
    ++ (if has_server flags p.dbtype
        then calls
        else record_added (codes "=> PQuery is not compiled with " ++ dbtype_str p.dbtype) ∷ [])

module _ (can_open : Bytes → Bool) (flags : BuildFlags) (master_log_dir strerror : Bytes) where
  unfoldable pub forked : Fork → WorkerParams → List Call → LogState → Ended × LogState
  unfolding master_line child_calls reinit_child_log
  forked (worker success) p calls s =
      sequence can_open (child_calls flags p calls)
        (reinit_child_log can_open master_log_dir p.my_name s)
  forked fork p calls s = add_record_to_log (master_line strerror fork) s

  unfoldable pub spawn_log : Fork → WorkerParams → List Call → LogState → Ended × LogState
  unfolding forked
  spawn_log fork p calls s = and_then (flush_log s) (forked fork p calls)
