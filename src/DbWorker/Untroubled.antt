-- ===== src/DbWorker/Untroubled.antt =====
-- A worker of src/cDbWorker.cpp whose client library throws nothing, and whose log files are open,
-- succeeds.
use pquery.Prelude.{
  ℕ, zero, suc, ◌^◌, ◌<◌, Bool, true, false, not, List, ◌≡◌, inl, inr, sym, ap, subst, Option, none,
  some, Bytes, is_empty, Bool-cases, Option-cases, codes, ◌++◌,
}
use pquery.WorkerConfig.Params.{WorkerParams}
use pquery.DbWorker.Counters.{Totals, calculate_queries}
use pquery.DbWorker.Thread.{
  Client, ThreadState, Run, done, gave_up, thrown, out_of_list, unfinished, query_loop, LogFile,
}
use pquery.DbWorker.Worker.{
  InfileParser, load_query_list, worker_thread, spawn_worker_threads, ended, started, run_queries,
  execute_tests, reported, adjust_runtime_params, unconnected, unable_to_connect,
}
use pquery.DbWorker.Returns.{IsReturned, spawn_worker_threads-IsReturned, reported-IsReturned}
use pquery.DbWorker.Quiet.{
  WritesTo, written_writes, CountsRows, HasLogs, IsQuiet, query_loop-IsQuiet,
}
use pquery.DbWorker.Bounded.{InList}

module _ (C : Client) where
  abbrev StaysGood : Option Totals → Type 0
  StaysGood none = Unit
  StaysGood (some t) = t.thread_failed ≡ false

  ended-StaysGood :
      (t : Totals) (r : Run C) → t.thread_failed ≡ false → IsQuiet C r → StaysGood (ended C t r)
  unfolding ended calculate_queries
  ended-StaysGood t (done s) h q = h
  ended-StaysGood t (gave_up s) h q = h
  ended-StaysGood t thrown h q = absurd q
  ended-StaysGood t out_of_list h q = tt
  ended-StaysGood t unfinished h q = tt

  unconnected-StaysGood :
      (t : Totals) (log : Option LogFile)
      → t.thread_failed ≡ false
      → WritesTo log
      → (unconnected C t log).thread_failed ≡ false
  unconnected-StaysGood t none h k = absurd k
  unconnected-StaysGood t (some log) h k = h

  worker_thread-StaysGood :
      (p : WorkerParams) (query_list : List Bytes) (random : ℕ → ℕ) (fuel : ℕ) (s : ThreadState C)
      (t : Totals)
      → CountsRows C
      → HasLogs C s
      → t.thread_failed ≡ false
      → StaysGood (worker_thread C p query_list random fuel s t)
  unfolding worker_thread
  worker_thread-StaysGood p query_list random fuel s t h l g =
      elim (Bool-cases (is_empty query_list)) [
        | inl e ↦ rw e g
        | inr e ↦ elim (Bool-cases (C.connect p s.conn).0) [
          | inr c ↦
              rw (e, c)
                (unconnected-StaysGood t _ g (
                  written_writes
                    (unable_to_connect (C.get_error_string (C.connect p s.conn).1) ++ codes "\n")
                    s.thread_log l.thread_log))
          | inl c ↦
              let begun = started C (C.connect p s.conn).1 s in
              let logs : HasLogs C begun = record {
                thread_log = l.thread_log;
                output_log = l.output_log;
              } in
              rw (e, c)
                (ended-StaysGood t (query_loop C p query_list random fuel 0 begun) g
                  (query_loop-IsQuiet C p query_list random fuel 0 begun h logs))
        ]
      ]

  spawn_worker_threads-StaysGood :
      (p : WorkerParams) (query_list : List Bytes) (fuel : ℕ) (thread : ℕ → (ℕ → ℕ) × ThreadState C)
      (n : ℕ) (t : Totals)
      → CountsRows C
      → ((k : ℕ) → HasLogs C (thread k).1)
      → t.thread_failed ≡ false
      → StaysGood (spawn_worker_threads C p query_list fuel thread n t)
  unfolding spawn_worker_threads
  spawn_worker_threads-StaysGood p query_list fuel thread zero t h l g = g
  spawn_worker_threads-StaysGood p query_list fuel thread (suc n) t h l g =
      elim (Option-cases (spawn_worker_threads C p query_list fuel thread n t)) [
        | inl e ↦ rw e tt
        | inr (u, e) ↦ rw e (
            worker_thread-StaysGood p query_list (thread n).0 fuel (thread n).1 u h (l n) (
              subst StaysGood e
                (spawn_worker_threads-StaysGood p query_list fuel thread n t h l g)))
      ]

  -- The worker has returned true.
  abbrev pub Succeeds : Option (Bool × Totals) → Type 0
  Succeeds none = ⊥
  Succeeds (some (success, t)) = success ≡ true

  reported-Succeeds :
      (o : Option Totals) → StaysGood o → IsReturned (reported C o) → Succeeds (reported C o)
  reported-Succeeds none g r = r
  reported-Succeeds (some t) g r = ap not g

  -- With a client library that throws nothing and log files that are open, a worker returns true.
  pub execute_tests-Succeeds :
      (create : WorkerParams → Option InfileParser) (p : WorkerParams) (file : Option Bytes)
      (query_list : List Bytes) (thread : ℕ → (ℕ → ℕ) × ThreadState C) (t : Totals)
      → load_query_list create p file ≡ some query_list
      → (adjust_runtime_params query_list p).queries_per_thread < 2 ^ 32
      → ((k : ℕ) → InList (adjust_runtime_params query_list p) query_list (thread k).0)
      → CountsRows C
      → ((k : ℕ) → HasLogs C (thread k).1)
      → t.thread_failed ≡ false
      → Succeeds (
          execute_tests C create true p file
            (suc (adjust_runtime_params query_list p).queries_per_thread)
            thread
            t)
  unfolding execute_tests run_queries
  execute_tests-Succeeds create p file query_list thread t e k i c l g =
      let q = adjust_runtime_params query_list p in
      let fuel = suc q.queries_per_thread in
      let returns = spawn_worker_threads-IsReturned C q query_list thread q.threads t k i in
      let good = spawn_worker_threads-StaysGood q query_list fuel thread q.threads t c l g in
      let same = ap (run_queries C p fuel thread t) e in
      subst Succeeds (sym same) (reported-Succeeds _ good (reported-IsReturned C _ returns))
