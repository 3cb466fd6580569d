-- ===== src/DbWorker/Thread.antt =====
-- `DbWorker::workerThread` of src/cDbWorker.cpp. An exception comes from the client library, or from a
-- log file that is not open.
use pquery.Prelude.{
  ℕ, zero, suc, ◌+◌, ◌%◌, ◌^◌, Bool, true, false, not, ◌&&◌, ◌||◌, List, [], ◌∷◌, ◌++◌, Option,
  none, some, ltb, leb, if◌then◌else◌, Bytes, codes, is_empty, pos,
}
use pquery.WorkerConfig.Params.{WorkerParams}
use pquery.WorkerConfig.Checks.{to_string}
use pquery.DbWorker.Counters.{Counters, count_query}

-- The client library with its server. `Conn` is the state of a connection.
pub record Client : Type 1 where
  pub Conn : Type 0
  pub connect : WorkerParams → Conn → Bool × Conn
  pub perform_real_query : Bytes → Conn → Bool × Conn
  pub get_error_string : Conn → Bytes
  pub get_warnings_count : Conn → ℕ
  -- `none` where the call throws.
  pub get_affected_rows : Conn → Option ℕ
  pub get_query_duration_ms : Conn → Bytes
  pub process_query_output : Conn → Bytes × Conn
  pub cleanup_result : Conn → Conn

abbrev pub max_con_failures : ℕ
max_con_failures = 250

-- `(*queryList)[i]`, where `none` is an access behind the end.
unfoldable pub get_elem? : ℕ → List Bytes → Option Bytes
get_elem? i [] = none
get_elem? zero (query ∷ queries) = some query
get_elem? (suc i) (query ∷ queries) = get_elem? i queries

abbrev pub number : ℕ → Bytes
unfolding to_string
number n = to_string (pos n)

-- `random i` is what `dis(gen)` gives in round i.
abbrev pub query_number_at : WorkerParams → (ℕ → ℕ) → ℕ → ℕ
query_number_at p random i = if p.shuffle then random i else i

-- A `Logger`: a null pointer, one whose file is not open, or what is written to its file.
pub data LogFile : Type 0 where
  no_logger closed : LogFile
  writing : Bytes → LogFile

-- `none` where the logger throws.
abbrev pub written : Bytes → LogFile → Option LogFile
written text no_logger = some no_logger
written text closed = none
written text (writing log) = some (writing (log ++ text))

unfoldable pub fail_message : ℕ → Bytes
fail_message count =
    codes "=> Last "
    ++ number count
    ++ codes " consecutive queries all failed. Likely crash/assert, "
    ++ codes "user privileges drop, or similar. Ending run."

unfoldable pub output_record : WorkerParams → ℕ → Bytes → Bytes
output_record p query_number text =
    if is_empty text
    then []
    else text
      ++ (if p.log_query_numbers then codes "#" ++ number ((query_number + 1) % 2 ^ 32) else [])
      ++ codes "\n"

module _ (C : Client) where
  pub record ThreadState : Type 0 where
    pub conn : C.Conn
    pub counters : Counters
    pub thread_log : LogFile
    pub output_log : LogFile

  -- How the loop ends: with the last query, with too many failures in a row, with an exception, with
  -- an access behind the query list, or not within the fuel.
  pub data Run : Type 0 where
    done gave_up : ThreadState → Run
    thrown out_of_list : Run
    unfinished : Run

  abbrev pub result_text : Bool → C.Conn → Bytes
  result_text true conn = codes "#NOERROR"
  result_text false conn = codes "#ERROR " ++ C.get_error_string conn

  abbrev statistics_from : Bool → C.Conn → Option ℕ → Option Bytes
  statistics_from success conn none = none
  statistics_from success conn (some rows) = some (
      result_text success conn
      ++ codes "#WARNINGS: "
      ++ number (C.get_warnings_count conn)
      ++ codes "#CHANGED: "
      ++ number rows)

  -- The statistics of a query, `none` where an exception is thrown.
  unfoldable pub statistics : WorkerParams → Bool → C.Conn → Option Bytes
  statistics p success conn =
      if p.log_query_statistics
      then statistics_from success conn (C.get_affected_rows conn)
      else some []

  unfoldable pub query_record : WorkerParams → ℕ → Bytes → Bool → C.Conn → Bytes → Bytes
  query_record p query_number query success conn stats =
      (if p.log_all_queries
          || p.log_succeeded_queries && success
          || p.log_failed_queries && not success
        then query
        else [])
      ++ stats
      ++ (if p.log_query_duration
          then codes "#Duration: " ++ C.get_query_duration_ms conn ++ codes " ms"
          else [])
      ++ (if p.log_query_numbers then codes "#" ++ number ((query_number + 1) % 2 ^ 32) else [])
      ++ codes "\n"

  abbrev pub with_logs : ThreadState → C.Conn → Option LogFile → Option LogFile → Option ThreadState
  with_logs s conn (some thread_log) (some output_log) =
      some (record s { conn = conn; thread_log = thread_log; output_log = output_log })
  with_logs s conn _ _ = none

  -- An output that is empty is not written.
  unfoldable pub output_written : WorkerParams → ℕ → Bytes → LogFile → Option LogFile
  unfolding output_record
  output_written p query_number text log =
      if is_empty text then some log else written (output_record p query_number text) log

  -- The loop's body behind the count of failures, from the logging on; `none` where a logger throws.
  unfoldable pub after_query :
      WorkerParams → ℕ → Bytes → Bool → ThreadState → Bytes → Option ThreadState
  unfolding query_record output_written
  after_query p query_number query success s stats =
      let (text, conn) = C.process_query_output s.conn in
      with_logs s (C.cleanup_result conn)
        (written (query_record p query_number query success s.conn stats) s.thread_log)
        (output_written p query_number text s.output_log)

  -- With no thread logger the statistics are not asked for.
  unfoldable pub asked : WorkerParams → Bool → C.Conn → LogFile → Option Bytes
  unfolding statistics
  asked p success conn no_logger = some []
  asked p success conn _ = statistics p success conn

  -- `performQuery`.
  unfoldable pub perform_query : Bytes → ThreadState → Bool × ThreadState
  unfolding count_query
  perform_query query s =
      let (success, conn) = C.perform_real_query query s.conn in
      (success, record s { conn = conn; counters = count_query success s.counters })

  pub data Step : Type 0 where
    next stop : ThreadState → Step
    raise : Step

  abbrev pub next_or_raise : Option ThreadState → Step
  next_or_raise none = raise
  next_or_raise (some s) = next s

  unfoldable pub continued : WorkerParams → ℕ → Bytes → Bool → ThreadState → Option Bytes → Step
  unfolding after_query
  continued p query_number query success s none = raise
  continued p query_number query success s (some stats) =
      next_or_raise (after_query p query_number query success s stats)

  abbrev pub stop_or_raise : ThreadState → Option LogFile → Step
  stop_or_raise s none = raise
  stop_or_raise s (some log) = stop (record s { thread_log = log })

  -- The loop's body for one query.
  unfoldable pub run_query : WorkerParams → ℕ → Bytes → ThreadState → Step
  unfolding perform_query continued asked fail_message
  run_query p query_number query s =
      let (success, s) = perform_query query s in
      if leb max_con_failures s.counters.consecutive_failures
      then stop_or_raise s
          (written (fail_message s.counters.consecutive_failures ++ codes "\n") s.thread_log)
      else continued p query_number query success s (asked p success s.conn s.thread_log)

  -- The loop, where `i` is the `uint32_t` counter.
  unfoldable pub query_loop : WorkerParams → List Bytes → (ℕ → ℕ) → ℕ → ℕ → ThreadState → Run
  unfolding run_query get_elem?
  query_loop p query_list random zero i s = unfinished
  query_loop p query_list random (suc fuel) i s =
      let rest = query_loop p query_list random fuel ((i + 1) % 2 ^ 32) in
      if ltb i p.queries_per_thread
      then elim (get_elem? (query_number_at p random i) query_list) [
        | none ↦ out_of_list
        | some query ↦ elim (run_query p (query_number_at p random i) query s) [
          | next s ↦ rest s
          | stop s ↦ gave_up s
          | raise ↦ thrown
        ]
      ]
      else done s
