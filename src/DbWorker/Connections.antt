-- ===== src/DbWorker/Connections.antt =====
-- What the loop of `workerThread` of src/cDbWorker.cpp keeps of its connection.
use pquery.Prelude.{
  ℕ, zero, suc, ◌+◌, ◌%◌, ◌^◌, Bool, true, false, List, ◌++◌, inl, inr, Option, none, some, ltb,
  leb, if◌then◌else◌, Bytes, codes, Bool-cases, Option-cases,
}
use pquery.WorkerConfig.Params.{WorkerParams}
use pquery.DbWorker.Thread.{
  Client, ThreadState, LogFile, written, Run, done, gave_up, thrown, out_of_list, unfinished, Step,
  next, stop, raise, run_query, perform_query, continued, after_query, asked, output_written,
  query_record, query_loop, query_number_at, get_elem?, next_or_raise, stop_or_raise, with_logs,
  max_con_failures, fail_message,
}

module _ (C : Client) (Q : C.Conn → Type 0) where
  -- No call of the loop breaks it.
  pub record IsKept : Type 0 where
    pub performs : (query : Bytes) (conn : C.Conn) → Q conn → Q (C.perform_real_query query conn).1
    pub processes : (conn : C.Conn) → Q conn → Q (C.process_query_output conn).1
    pub cleans : (conn : C.Conn) → Q conn → Q (C.cleanup_result conn)

  abbrev Steps : Step C → Type 0
  Steps (next s) = Q s.conn
  Steps (stop s) = Q s.conn
  Steps raise = Unit

  -- It holds where the loop has ended with no exception.
  abbrev pub Holds : Run C → Type 0
  Holds (done s) = Q s.conn
  Holds (gave_up s) = Q s.conn
  Holds _ = Unit

  logs-Steps :
      (s : ThreadState C) (conn : C.Conn) (log other : Option LogFile)
      → Q conn
      → Steps (next_or_raise C (with_logs C s conn log other))
  logs-Steps s conn none other h = tt
  logs-Steps s conn (some log) none h = tt
  logs-Steps s conn (some log) (some other) h = h

  stop-Steps : (s : ThreadState C) (log : Option LogFile) → Q s.conn → Steps (stop_or_raise C s log)
  stop-Steps s none h = tt
  stop-Steps s (some log) h = h

  continued-Steps :
      (p : WorkerParams) (n : ℕ) (query : Bytes) (success : Bool) (s : ThreadState C)
      (stats : Option Bytes)
      → IsKept
      → Q s.conn
      → Steps (continued C p n query success s stats)
  unfolding continued after_query
  continued-Steps p n query success s none k h = tt
  continued-Steps p n query success s (some stats) k h =
      let (text, conn) = C.process_query_output s.conn in
      logs-Steps s (C.cleanup_result conn)
        (written (query_record C p n query success s.conn stats) s.thread_log)
        (output_written C p n text s.output_log) (k.cleans conn (k.processes s.conn h))

  Steps-if : (b : Bool) (x y : Step C) → Steps x → Steps y → Steps (if b then x else y)
  Steps-if true x y h k = h
  Steps-if false x y h k = k

  run_query-Steps :
      (p : WorkerParams) (n : ℕ) (query : Bytes) (s : ThreadState C)
      → IsKept
      → Q s.conn
      → Steps (run_query C p n query s)
  unfolding run_query perform_query
  run_query-Steps p n query s k h =
      let (success, after) = perform_query C query s in
      let held = k.performs query s.conn h in
      Steps-if (leb max_con_failures after.counters.consecutive_failures) _ _
        (stop-Steps after
          (written (fail_message after.counters.consecutive_failures ++ codes "\n")
            after.thread_log)
          held)
        (continued-Steps p n query success after (asked C p success after.conn after.thread_log) k
          held)

  stepped-Holds :
      (x : Step C) (rest : ThreadState C → Run C)
      → Steps x
      → ((s : ThreadState C) → Q s.conn → Holds (rest s))
      → Holds (elim x [ next s ↦ rest s | stop s ↦ gave_up s | raise ↦ thrown ])
  stepped-Holds (next s) rest h k = k s h
  stepped-Holds (stop s) rest h k = h
  stepped-Holds raise rest h k = tt

  pub query_loop-Holds :
      (p : WorkerParams) (query_list : List Bytes) (random : ℕ → ℕ) (fuel i : ℕ) (s : ThreadState C)
      → IsKept
      → Q s.conn
      → Holds (query_loop C p query_list random fuel i s)
  unfolding query_loop
  query_loop-Holds p query_list random zero i s k h = tt
  query_loop-Holds p query_list random (suc fuel) i s k h =
      elim (Bool-cases (ltb i p.queries_per_thread)) [
        | inr e ↦ rw e h
        | inl e ↦ elim (Option-cases (get_elem? (query_number_at p random i) query_list)) [
          | inl n ↦ rw (e, n) tt
          | inr (query, n) ↦
              rw (e, n)
                (stepped-Holds _ _ (run_query-Steps p (query_number_at p random i) query s k h)
                  (λ t m. query_loop-Holds p query_list random fuel ((i + 1) % 2 ^ 32) t k m))
        ]
      ]

pub Holds-map :
    (C : Client) {Q R : C.Conn → Type 0} (r : Run C)
    → ((conn : C.Conn) → Q conn → R conn)
    → Holds C Q r
    → Holds C R r
Holds-map C (done s) f h = f s.conn h
Holds-map C (gave_up s) f h = f s.conn h
Holds-map C thrown f h = tt
Holds-map C out_of_list f h = tt
Holds-map C unfinished f h = tt
