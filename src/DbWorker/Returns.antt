-- ===== src/DbWorker/Returns.antt =====
-- `executeTests` of src/cDbWorker.cpp returns, where the query list is replayed.
use pquery.Prelude.{
  ℕ, zero, suc, ◌^◌, ◌<◌, true, false, List, ◌≡◌, inl, inr, refl, sym, ap, subst, Option, none,
  some, if◌then◌else◌, Bytes, length, is_empty, Bool-cases, Option-cases,
}
use pquery.WorkerConfig.Params.{WorkerParams}
use pquery.DbWorker.Counters.{Totals}
use pquery.DbWorker.Thread.{
  Client, ThreadState, Run, done, gave_up, thrown, out_of_list, unfinished,
}
use pquery.DbWorker.Bounded.{InList, Ended, query_loop-Ended_at_start}
use pquery.DbWorker.Worker.{
  InfileParser, adjust_runtime_params, load_query_list, worker_thread, spawn_worker_threads, ended,
  started, run_queries, execute_tests, reported,
}

-- A result that is there.
abbrev pub IsReturned : {A : Type 0} → Option A → Type 0
IsReturned none = ⊥
IsReturned (some a) = Unit

module _ (C : Client) where
  Ended-IsReturned : (t : Totals) (r : Run C) → Ended r → IsReturned (ended C t r)
  unfolding ended
  Ended-IsReturned t (done s) h = tt
  Ended-IsReturned t (gave_up s) h = tt
  Ended-IsReturned t thrown h = tt
  Ended-IsReturned t out_of_list h = absurd h
  Ended-IsReturned t unfinished h = absurd h

  worker_thread-IsReturned :
      (p : WorkerParams) (query_list : List Bytes) (random : ℕ → ℕ) (s : ThreadState C) (t : Totals)
      → p.queries_per_thread < 2 ^ 32
      → InList p query_list random
      → IsReturned (worker_thread C p query_list random (suc p.queries_per_thread) s t)
  unfolding worker_thread
  worker_thread-IsReturned p query_list random s t h l = elim (Bool-cases (is_empty query_list)) [
    | inl e ↦ rw (e) tt
    | inr e ↦ elim (Bool-cases (C.connect p s.conn).0) [
      | inr c ↦ rw (e, c) tt
      | inl c ↦
          rw (e, c)
            (Ended-IsReturned t _ (
              query_loop-Ended_at_start C p query_list random (started C (C.connect p s.conn).1 s) h
                l))
    ]
  ]

  pub spawn_worker_threads-IsReturned :
      (p : WorkerParams) (query_list : List Bytes) (thread : ℕ → (ℕ → ℕ) × ThreadState C) (n : ℕ)
      (t : Totals)
      → p.queries_per_thread < 2 ^ 32
      → ((k : ℕ) → InList p query_list (thread k).0)
      → IsReturned (spawn_worker_threads C p query_list (suc p.queries_per_thread) thread n t)
  unfolding spawn_worker_threads
  spawn_worker_threads-IsReturned p query_list thread zero t h l = tt
  spawn_worker_threads-IsReturned p query_list thread (suc n) t h l =
      elim (Option-cases
        (spawn_worker_threads C p query_list (suc p.queries_per_thread) thread n t)) [
          | inl e ↦
              absurd
                (subst IsReturned e (spawn_worker_threads-IsReturned p query_list thread n t h l))
          | inr (u, e) ↦
              rw (e) (worker_thread-IsReturned p query_list (thread n).0 (thread n).1 u h (l n))
        ]

  pub reported-IsReturned : (o : Option Totals) → IsReturned o → IsReturned (reported C o)
  reported-IsReturned none h = absurd h
  reported-IsReturned (some t) h = tt

  adjusted_queries :
      (p : WorkerParams) (query_list : List Bytes)
      → p.shuffle ≡ false
      → (adjust_runtime_params query_list p).queries_per_thread ≡ length query_list
  unfolding adjust_runtime_params
  adjusted_queries p query_list h = rw (h) refl

  adjusted_shuffle :
      (p : WorkerParams) (query_list : List Bytes)
      → p.shuffle ≡ false
      → (adjust_runtime_params query_list p).shuffle ≡ false
  unfolding adjust_runtime_params
  adjusted_shuffle p query_list h = rw (h) refl

  replayed-InList :
      (p : WorkerParams) (query_list : List Bytes) (random : ℕ → ℕ)
      → p.shuffle ≡ false
      → InList (adjust_runtime_params query_list p) query_list random
  unfolding InList
  replayed-InList p query_list random h i k =
      subst (λ n. n < length query_list)
        (sym (ap (λ b. if b then random i else i) (adjusted_shuffle p query_list h)))
        (subst (λ n. i < n) (adjusted_queries p query_list h) k)

  -- Where the connection test succeeds, the query list is loaded, replayed and shorter than 2^32,
  -- a worker returns, whatever its server answers, and no thread goes behind the list.
  pub execute_tests-IsReturned :
      (create : WorkerParams → Option InfileParser) (p : WorkerParams) (file : Option Bytes)
      (query_list : List Bytes) (thread : ℕ → (ℕ → ℕ) × ThreadState C) (t : Totals)
      → load_query_list create p file ≡ some query_list
      → p.shuffle ≡ false
      → length query_list < 2 ^ 32
      → IsReturned (execute_tests C create true p file (suc (length query_list)) thread t)
  unfolding execute_tests run_queries
  execute_tests-IsReturned create p file query_list thread t e h k =
      let q = adjust_runtime_params query_list p in
      let same = adjusted_queries p query_list h in
      rw (e) (
        reported-IsReturned _ (
          subst (λ n. IsReturned (spawn_worker_threads C q query_list (suc n) thread q.threads t))
            same
            (spawn_worker_threads-IsReturned q query_list thread q.threads t
              (subst (λ n. n < 2 ^ 32) (sym same) k)
              (λ i. replayed-InList p query_list (thread i).0 h))))
