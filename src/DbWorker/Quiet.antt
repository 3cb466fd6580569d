-- ===== src/DbWorker/Quiet.antt =====
-- The loop of `workerThread` in src/cDbWorker.cpp ends with no exception, where the client library
-- throws nothing and the log files are open.
use pquery.Prelude.{
  ℕ, zero, suc, ◌+◌, ◌%◌, ◌^◌, Bool, true, false, List, [], ◌∷◌, ◌++◌, ◌≢◌, inl, inr, Option, none,
  some, ltb, leb, if◌then◌else◌, Bytes, codes, Bool-cases, Option-cases,
}
use pquery.WorkerConfig.Params.{WorkerParams}
use pquery.DbWorker.Thread.{
  Client, ThreadState, LogFile, no_logger, closed, writing, written, Run, gave_up, thrown, Step,
  next, stop, raise, run_query, perform_query, continued, after_query, asked, statistics,
  output_written, output_record, query_record, query_loop, query_number_at, get_elem?,
  next_or_raise, stop_or_raise, with_logs, max_con_failures, fail_message,
}
use pquery.DbWorker.Returns.{IsReturned}

-- A logger that writes, or none.
abbrev pub IsWritable : LogFile → Type 0
IsWritable no_logger = Unit
IsWritable closed = ⊥
IsWritable (writing text) = Unit

abbrev pub WritesTo : Option LogFile → Type 0
WritesTo none = ⊥
WritesTo (some log) = IsWritable log

pub written_writes : (text : Bytes) (log : LogFile) → IsWritable log → WritesTo (written text log)
written_writes text no_logger h = tt
written_writes text closed h = h
written_writes text (writing t) h = tt

module _ (C : Client) where
  -- No call of getAffectedRows throws.
  abbrev pub CountsRows : Type 0
  CountsRows = (conn : C.Conn) → C.get_affected_rows conn ≢ none

  pub record HasLogs (s : ThreadState C) : Type 0 where
    pub thread_log : IsWritable s.thread_log
    pub output_log : IsWritable s.output_log

  abbrev Goes : Step C → Type 0
  Goes (next s) = HasLogs s
  Goes (stop s) = Unit
  Goes raise = ⊥

  statistics_there :
      (p : WorkerParams) (success : Bool) (conn : C.Conn)
      → CountsRows
      → IsReturned (statistics C p success conn)
  unfolding statistics
  statistics_there p success conn h = elim (Bool-cases p.log_query_statistics) [
    | inr e ↦ rw e tt
    | inl e ↦ elim (Option-cases (C.get_affected_rows conn)) [
      | inl n ↦ absurd (h conn n)
      | inr (rows, n) ↦ rw (e, n) tt
    ]
  ]

  asked_there :
      (p : WorkerParams) (success : Bool) (conn : C.Conn) (log : LogFile)
      → CountsRows
      → IsReturned (asked C p success conn log)
  unfolding asked
  asked_there p success conn no_logger h = tt
  asked_there p success conn closed h = statistics_there p success conn h
  asked_there p success conn (writing text) h = statistics_there p success conn h

  output_writes :
      (p : WorkerParams) (n : ℕ) (text : Bytes) (log : LogFile)
      → IsWritable log
      → WritesTo (output_written C p n text log)
  unfolding output_written
  output_writes p n [] log h = h
  output_writes p n (c ∷ text) log h = written_writes (output_record p n (c ∷ text)) log h

  logs-Goes :
      (s : ThreadState C) (conn : C.Conn) (log other : Option LogFile)
      → WritesTo log
      → WritesTo other
      → Goes (next_or_raise C (with_logs C s conn log other))
  logs-Goes s conn none other h k = h
  logs-Goes s conn (some log) none h k = k
  logs-Goes s conn (some log) (some other) h k = record { thread_log = h; output_log = k }

  stop-Goes :
      (s : ThreadState C) (log : Option LogFile) → WritesTo log → Goes (stop_or_raise C s log)
  stop-Goes s none h = h
  stop-Goes s (some log) h = tt

  continued-Goes :
      (p : WorkerParams) (n : ℕ) (query : Bytes) (success : Bool) (s : ThreadState C)
      (stats : Option Bytes)
      → IsReturned stats
      → HasLogs s
      → Goes (continued C p n query success s stats)
  unfolding continued after_query
  continued-Goes p n query success s none h l = h
  continued-Goes p n query success s (some stats) h l =
      logs-Goes s (C.cleanup_result (C.process_query_output s.conn).1) _ _
        (written_writes (query_record C p n query success s.conn stats) s.thread_log l.thread_log)
        (output_writes p n (C.process_query_output s.conn).0 s.output_log l.output_log)

  Goes-if : (b : Bool) (x y : Step C) → Goes x → Goes y → Goes (if b then x else y)
  Goes-if true x y h k = h
  Goes-if false x y h k = k

  run_query-Goes :
      (p : WorkerParams) (n : ℕ) (query : Bytes) (s : ThreadState C)
      → CountsRows
      → HasLogs s
      → Goes (run_query C p n query s)
  unfolding run_query perform_query
  run_query-Goes p n query s h l =
      let (success, after) = perform_query C query s in
      let logs : HasLogs after = record { thread_log = l.thread_log; output_log = l.output_log } in
      Goes-if (leb max_con_failures after.counters.consecutive_failures) _ _
        (stop-Goes after _ (
          written_writes (fail_message after.counters.consecutive_failures ++ codes "\n")
            after.thread_log l.thread_log))
        (continued-Goes p n query success after (asked C p success after.conn after.thread_log)
          (asked_there p success after.conn after.thread_log h) logs)

  -- No exception has ended the loop.
  abbrev pub IsQuiet : Run C → Type 0
  IsQuiet thrown = ⊥
  IsQuiet _ = Unit

  stepped-IsQuiet :
      (x : Step C) (rest : ThreadState C → Run C)
      → Goes x
      → ((s : ThreadState C) → HasLogs s → IsQuiet (rest s))
      → IsQuiet (elim x [ next s ↦ rest s | stop s ↦ gave_up s | raise ↦ thrown ])
  stepped-IsQuiet (next s) rest h k = k s h
  stepped-IsQuiet (stop s) rest h k = tt
  stepped-IsQuiet raise rest h k = h

  pub query_loop-IsQuiet :
      (p : WorkerParams) (query_list : List Bytes) (random : ℕ → ℕ) (fuel i : ℕ) (s : ThreadState C)
      → CountsRows
      → HasLogs s
      → IsQuiet (query_loop C p query_list random fuel i s)
  unfolding query_loop
  query_loop-IsQuiet p query_list random zero i s h l = tt
  query_loop-IsQuiet p query_list random (suc fuel) i s h l =
      elim (Bool-cases (ltb i p.queries_per_thread)) [
        | inr e ↦ rw e tt
        | inl e ↦ elim (Option-cases (get_elem? (query_number_at p random i) query_list)) [
          | inl n ↦ rw (e, n) tt
          | inr (query, n) ↦
              rw (e, n)
                (stepped-IsQuiet _ _ (run_query-Goes p (query_number_at p random i) query s h l)
                  (λ t m. query_loop-IsQuiet p query_list random fuel ((i + 1) % 2 ^ 32) t h m))
        ]
      ]
