-- ===== src/WorkerPool/ChildLog.antt =====
-- The log of a worker's process: `reinitChildLog` and `logWorkerDetails` of src/cWorkerPool.cpp.
use pquery.Prelude.{ℕ, Bool, List, [], ◌∷◌, ◌++◌, if◌then◌else◌, Bytes, codes, is_empty, pos}
use pquery.WorkerConfig.Params.{WorkerParams, dbtype_str, infiletype_str}
use pquery.WorkerConfig.Checks.{to_string}
use pquery.Logger.Operations.{LogState, Ended, init_log_file}
use pquery.Logger.Calls.{Call, separation, record_added, sequence}

unfoldable pub worker_log : Bytes → Bytes → Bytes
worker_log master_log_dir name = master_log_dir ++ (codes "/" ++ (name ++ codes "_worker.log"))

-- The result of `initLogFile` is dropped.
unfoldable pub reinit_child_log : (Bytes → Bool) → Bytes → Bytes → LogState → LogState
unfolding worker_log
reinit_child_log can_open master_log_dir name s =
    (init_log_file can_open (worker_log master_log_dir name) s).1

abbrev detail : Bytes → Bytes → Call
detail label value = record_added (label ++ value)

abbrev flag_text : Bool → Bytes
flag_text b = if b then codes "1" else codes "0"

unfoldable number_text : ℕ → Bytes
unfolding to_string
number_text n = to_string (pos n)

-- What is shown of a password.
unfoldable pub password_text : Bytes → Bytes
password_text password = if is_empty password then codes "<empty>" else codes "<redacted>"

abbrev database_details : WorkerParams → List Call
database_details p =
    detail (codes "## Config name: ") p.my_name
    ∷ detail (codes "## DB type: ") (dbtype_str p.dbtype)
    ∷ detail (codes "## DB name: ") p.database
    ∷ detail (codes "## DB address: ") p.address
    ∷ detail (codes "## DB username: ") p.username
    ∷ detail (codes "## DB password: ") (password_text p.password)
    ∷ detail (codes "## DB socket: ") p.socket
    ∷ detail (codes "## DB port: ") (number_text p.port)
    ∷ []

abbrev run_details : WorkerParams → List Call
run_details p =
    detail (codes "## PQuery threads: ") (number_text p.threads)
    ∷ detail (codes "## PQuery queries per thread: ") (number_text p.queries_per_thread)
    ∷ detail (codes "## PQuery verbosity: ") (flag_text p.verbose)
    ∷ detail (codes "## PQuery shuffle: ") (flag_text p.shuffle)
    ∷ detail (codes "## PQuery infile: ") p.infile
    ∷ detail (codes "## PQuery infile type: ") (infiletype_str p.infiletype)
    ∷ detail (codes "## PQuery maxsize for query list: ") (number_text p.query_list_maxsize)
    ∷ detail (codes "## PQuery log directory: ") p.logdir
    ∷ []

abbrev log_details : WorkerParams → List Call
log_details p =
    detail (codes "## PQuery log all queries: ") (flag_text p.log_all_queries)
    ∷ detail (codes "## PQuery log failed queries: ") (flag_text p.log_failed_queries)
    ∷ detail (codes "## PQuery log query statistics: ") (flag_text p.log_query_statistics)
    ∷ detail (codes "## PQuery log query duration: ") (flag_text p.log_query_duration)
    ∷ detail (codes "## PQuery log client output: ") (flag_text p.log_client_output)
    ∷ detail (codes "## PQuery log query numbers: ") (flag_text p.log_query_numbers)
    ∷ []

-- The calls of the logger, in their order.
unfoldable pub worker_details : WorkerParams → List Call
unfolding number_text password_text dbtype_str infiletype_str
worker_details p =
    separation b'#' (pos 40)
    ∷ (database_details p ++ (run_details p ++ (log_details p ++ separation b'#' (pos 40) ∷ [])))

-- `logWorkerDetails`.
unfoldable pub log_worker_details : (Bytes → Bool) → WorkerParams → LogState → Ended × LogState
unfolding worker_details
log_worker_details can_open p s = sequence can_open (worker_details p) s
