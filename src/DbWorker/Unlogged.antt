-- ===== src/DbWorker/Unlogged.antt =====
-- The logs of a thread of src/cDbWorker.cpp: they behave as the loop's model of them does, and a
-- thread whose log cannot be opened fails.
use pquery.Prelude.{
  pos, ℕ, suc, ◌<◌, Bool, true, false, List, [], ◌∷◌, ◌++◌, ◌≡◌, refl, ap, ◌∙◌, Option, none, some,
  arith, ltb, leb, if◌then◌else◌, Bytes, codes, length, Bool-cases, inl, inr,
}
use pquery.WorkerConfig.Params.{WorkerParams}
use pquery.Logger.Stream.{Files}
use pquery.Logger.Operations.{LogState, Ended, returned, threw, insert, new_logger}
use pquery.Logger.Calls.{IsReady}
use pquery.Logger.Journal.{refused_on, written_on, journal}
use pquery.Logger.Writes.{insert-Agrees}
use pquery.Logger.Texts.{init_log_file-new_target, add-unpadded}
use pquery.DbWorker.Counters.{Totals}
use pquery.DbWorker.Thread.{
  Client, ThreadState, LogFile, no_logger, closed, writing, written, raise, run_query, continued,
  after_query, perform_query, query_loop, query_number_at, fail_message, max_con_failures, asked,
  query_record, stop_or_raise, next_or_raise, with_logs,
}
use pquery.DbWorker.Worker.{worker_thread, ended, started, unconnected, unable_to_connect}
use pquery.DbWorker.Bounded.{get_elem?_inside}
use pquery.DbWorker.Logs.{
  log_of, log_file_of, open_log, thread_start, thread_path, wants_thread_log,
}

-- The logger throws where its model does, and else has written what its model has.
abbrev pub Writes : Option LogFile → Ended × LogState → Type 0
Writes none (ending, s) = ending ≡ threw
Writes (some log) (ending, s) = (ending ≡ returned) × (log_file_of s ≡ log)

target_Writes :
    (text : Bytes) (target : Option (Bytes × Bytes)) (x : Ended × LogState)
    → x.0 ≡ refused_on target
    → (journal x.1).target ≡ written_on text target
    → Writes (written text (log_of target)) x
target_Writes text none (ending, s) e j = e
target_Writes text (some (path, content)) (ending, s) e j = (e, ap log_of j)

-- `operator<<` of a `Logger` does what `written` does to its model.
pub insert-Writes :
    (text : Bytes) (s : LogState)
    → IsReady s.logger.log_file
    → s.logger.log_file.width ≡ pos 0
    → Writes (written text (log_file_of s)) (insert text s)
insert-Writes text s h w =
    let (ends, (_, j)) = insert-Agrees text s h in
    target_Writes text (journal s).target (insert text s) ends
      (ap (λ j. j.target) j ∙ (add-unpadded text (journal s) w).0)

log_of_if :
    (b : Bool) (path : Bytes)
    → log_of (if b then some (path, []) else none) ≡ (if b then writing [] else closed)
log_of_if true path = refl
log_of_if false path = refl

-- A log is empty, or it is not open.
pub open_log_lem :
    (can_open : Bytes → Bool) (files : Files) (path : Bytes)
    → open_log can_open files path ≡ (if can_open path then writing [] else closed)
unfolding open_log new_logger
open_log_lem can_open files path =
    ap log_of
      (init_log_file-new_target can_open path (record { logger = new_logger; files = files }) refl)
    ∙ log_of_if (can_open path) path

written_closed : (text : Bytes) (log : LogFile) → log ≡ closed → written text log ≡ none
written_closed text no_logger h = cc
written_closed text closed h = refl
written_closed text (writing t) h = cc

module _ (C : Client) where
  with_logs-none :
      (s : ThreadState C) (conn : C.Conn) (log other : Option LogFile)
      → log ≡ none
      → with_logs C s conn log other ≡ none
  with_logs-none s conn none other e = refl
  with_logs-none s conn (some log) other e = cc

  closed_step :
      (b : Bool) (message : Bytes) (p : WorkerParams) (n : ℕ) (query : Bytes) (success : Bool)
      (s : ThreadState C) (stats : Option Bytes)
      → s.thread_log ≡ closed
      → (if b
          then stop_or_raise C s (written message s.thread_log)
          else continued C p n query success s stats)
        ≡ raise
  unfolding continued after_query
  closed_step true message p n query success s stats h =
      ap (stop_or_raise C s) (written_closed message s.thread_log h)
  closed_step false message p n query success s none h = refl
  closed_step false message p n query success s (some stats) h = ap (next_or_raise C) (
      with_logs-none s (C.cleanup_result (C.process_query_output s.conn).1) _ _
        (written_closed (query_record C p n query success s.conn stats) s.thread_log h))

  -- With a log that is not open, every query ends with an exception.
  run_query-closed :
      (p : WorkerParams) (n : ℕ) (query : Bytes) (s : ThreadState C)
      → s.thread_log ≡ closed
      → run_query C p n query s ≡ raise
  unfolding run_query perform_query continued after_query asked
  run_query-closed p n query s h =
      let (success, after) = perform_query C query s in
      closed_step (leb max_con_failures after.counters.consecutive_failures)
        (fail_message after.counters.consecutive_failures ++ codes "\n") p n query success after
        (asked C p success after.conn after.thread_log) h

  start_closed :
      (can_open : Bytes → Bool) (files : Files) (p : WorkerParams) (n : ℕ) (conn : C.Conn)
      → wants_thread_log p ≡ true
      → can_open (thread_path p n (codes ".sql")) ≡ false
      → (thread_start C can_open files p n conn).thread_log ≡ closed
  unfolding thread_start
  start_closed can_open files p n conn w o =
      rw (w, open_log_lem can_open files (thread_path p n (codes ".sql")), o) refl

  unconnected_closed :
      (t : Totals) (text : Bytes) (log : LogFile)
      → log ≡ closed
      → unconnected C t (written text log) ≡ record t { thread_failed = true }
  unconnected_closed t text log h = ap (unconnected C t) (written_closed text log h)

  -- Where a thread is to log queries and its file cannot be opened, the result of initLogFile is
  -- dropped, and the first line that it writes ends the thread: with at least one query to run and
  -- its number in the query list, the thread counts as failed and nothing else is counted, not even
  -- a connection that it did not get.
  pub worker_thread-Unlogged :
      (can_open : Bytes → Bool) (files : Files) (p : WorkerParams) (n : ℕ) (conn : C.Conn)
      (query_list : List Bytes) (random : ℕ → ℕ) (fuel : ℕ) (t : Totals)
      → wants_thread_log p ≡ true
      → can_open (thread_path p n (codes ".sql")) ≡ false
      → 0 < p.queries_per_thread
      → query_number_at p random 0 < length query_list
      → worker_thread C p query_list random (suc fuel) (thread_start C can_open files p n conn) t
        ≡ some (record t { thread_failed = true })
  unfolding worker_thread ended query_loop thread_start
  worker_thread-Unlogged can_open files p n conn [] random fuel t w o q i = absurd (omega arith)
  worker_thread-Unlogged can_open files p n conn (first ∷ others) random fuel t w o q i =
      let (query, found) = get_elem?_inside (query_number_at p random 0) (first ∷ others) i in
      let some_left : ltb 0 p.queries_per_thread ≡ true = ground arith in
      let start = started C (C.connect p conn).1 (thread_start C can_open files p n conn) in
      let raised =
        run_query-closed p (query_number_at p random 0) query start
          (start_closed can_open files p n conn w o) in
      elim (Bool-cases (C.connect p conn).0) [
        | inl c ↦ rw (c, some_left, found, raised) refl
        | inr c ↦ rw c (
            ap some (
              unconnected_closed t
                (unable_to_connect (C.get_error_string (C.connect p conn).1) ++ codes "\n") _
                (start_closed can_open files p n conn w o)))
      ]
