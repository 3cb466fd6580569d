-- ===== src/DbWorker/Bounded.antt =====
-- The loop of `workerThread` in src/cDbWorker.cpp ends and stays in the query list, where its counter
-- can reach the number of queries; it never ends where that is 2^32 or more.
use native.Mathlib.Nat.{mod-eq_of_lt, mod-lt}
use pquery.Prelude.{
  ℕ, zero, suc, ◌+◌, ◌%◌, ◌^◌, ◌≤◌, ◌<◌, true, List, [], ◌∷◌, ◌≡◌, ◌⊎◌, inl, inr, refl, arith, some,
  ltb, Bytes, length, Bool-cases,
}
use pquery.WorkerConfig.Params.{WorkerParams}
use pquery.DbWorker.Counters.{count_query}
use pquery.DbWorker.Thread.{
  Client, ThreadState, Run, done, gave_up, thrown, out_of_list, unfinished, get_elem?, Step, next,
  stop, raise, query_number_at, query_loop, run_query, continued, no_logger, output_written,
  after_query, perform_query,
}

pub get_elem?_inside :
    (i : ℕ) (queries : List Bytes)
    → i < length queries
    → (q : Bytes) × (get_elem? i queries ≡ some q)
unfolding get_elem?
get_elem?_inside i [] h = absurd (omega arith)
get_elem?_inside zero (q ∷ queries) h = (q, refl)
get_elem?_inside (suc i) (q ∷ queries) h = get_elem?_inside i queries (omega arith)

-- Every query that the loop asks for is in the list.
unfoldable pub InList : WorkerParams → List Bytes → (ℕ → ℕ) → Type 0
InList p query_list random =
    (i : ℕ) → i < p.queries_per_thread → query_number_at p random i < length query_list

-- The loop has ended, with all its accesses in the list.
abbrev pub Ended : {C : Client} → Run C → Type 0
Ended (done s) = Unit
Ended (gave_up s) = Unit
Ended thrown = Unit
Ended out_of_list = ⊥
Ended unfinished = ⊥

module _ (C : Client) where
  pub Step_cases :
      (x : Step C)
      → ((s : ThreadState C) × (x ≡ next s)) ⊎ (((s : ThreadState C) × (x ≡ stop s)) ⊎ (x ≡ raise))
  Step_cases (next s) = inl (s, refl)
  Step_cases (stop s) = inr (inl (s, refl))
  Step_cases raise = inr (inr refl)

  query_loop-Ended :
      (p : WorkerParams) (query_list : List Bytes) (random : ℕ → ℕ) (fuel i : ℕ) (s : ThreadState C)
      → p.queries_per_thread < 2 ^ 32
      → InList p query_list random
      → i ≤ p.queries_per_thread
      → p.queries_per_thread < fuel + i
      → Ended (query_loop C p query_list random fuel i s)
  unfolding query_loop InList
  query_loop-Ended p query_list random zero i s h l k f = absurd (omega arith)
  query_loop-Ended p query_list random (suc fuel) i s h l k f =
      elim (Bool-cases (ltb i p.queries_per_thread)) [
        | inr e ↦ rw (e) tt
        | inl e ↦
            let inside = l i (ground arith) in
            let (query, found) = get_elem?_inside _ query_list inside in
            elim (Step_cases (run_query C p (query_number_at p random i) query s)) [
              | inl (t, r) ↦
                  rw (e, found, r, mod-eq_of_lt {n = i + 1} {m = 2 ^ 32} (ground arith))
                    (query_loop-Ended p query_list random fuel (i + 1) t h l (ground arith)
                      (omega arith))
              | inr (inl (t, r)) ↦ rw (e, found, r) tt
              | inr (inr r) ↦ rw (e, found, r) tt
            ]
      ]

  -- With fewer than 2^32 queries per thread, and every number that is asked for in the query list,
  -- the loop of a thread ends within one round more than there are queries, and never goes behind
  -- the list.
  pub query_loop-Ended_at_start :
      (p : WorkerParams) (query_list : List Bytes) (random : ℕ → ℕ) (s : ThreadState C)
      → p.queries_per_thread < 2 ^ 32
      → InList p query_list random
      → Ended (query_loop C p query_list random (suc p.queries_per_thread) 0 s)
  query_loop-Ended_at_start p query_list random s h l =
      query_loop-Ended p query_list random (suc p.queries_per_thread) 0 s h l (omega arith)
        (omega arith)

  -- A server that answers every query.
  unfoldable pub AnswersAll : Type 0
  AnswersAll = (query : Bytes) (conn : C.Conn) → (C.perform_real_query query conn).0 ≡ true

  -- A thread that logs nothing.
  pub record IsSilent (s : ThreadState C) : Type 0 where
    pub no_thread_log : s.thread_log ≡ no_logger
    pub no_output_log : s.output_log ≡ no_logger

  output_silent :
      (p : WorkerParams) (n : ℕ) (text : Bytes)
      → output_written C p n text no_logger ≡ some no_logger
  unfolding output_written
  output_silent p n [] = refl
  output_silent p n (c ∷ text) = refl

  run_query_answered :
      (p : WorkerParams) (n : ℕ) (query : Bytes) (s : ThreadState C)
      → AnswersAll
      → IsSilent s
      → (t : ThreadState C) × (run_query C p n query s ≡ next t) × IsSilent t
  unfolding AnswersAll run_query perform_query count_query continued after_query
  run_query_answered p n query s a l =
      let (success, u) = perform_query C query s in
      let (text, conn) = C.process_query_output u.conn in
      (
        record u { conn = C.cleanup_result conn; thread_log = no_logger; output_log = no_logger },
        rw (l.no_thread_log, l.no_output_log, output_silent p n text, a query s.conn) refl,
        record { no_thread_log = refl; no_output_log = refl },
      )

  -- With 2^32 or more queries per thread, every number that is asked for in the query list, a
  -- server that answers every query and a thread without log files, the 32 bit counter never
  -- reaches the number of queries: no fuel is enough, the loop does not end.
  pub query_loop_endless :
      (p : WorkerParams) (query_list : List Bytes) (random : ℕ → ℕ) (fuel i : ℕ) (s : ThreadState C)
      → 2 ^ 32 ≤ p.queries_per_thread
      → InList p query_list random
      → AnswersAll
      → IsSilent s
      → i < 2 ^ 32
      → query_loop C p query_list random fuel i s ≡ unfinished
  unfolding query_loop InList
  query_loop_endless p query_list random zero i s h l a q k = refl
  query_loop_endless p query_list random (suc fuel) i s h l a q k =
      let less : ltb i p.queries_per_thread ≡ true = ground arith in
      let (query, found) = get_elem?_inside _ query_list (l i (omega arith)) in
      let (t, r, silent) = run_query_answered p (query_number_at p random i) query s a q in
      rw (less, found, r)
        (query_loop_endless p query_list random fuel ((i + 1) % 2 ^ 32) t h l a silent
          (mod-lt (i + 1) (omega arith)))
