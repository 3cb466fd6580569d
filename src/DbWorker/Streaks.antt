-- ===== src/DbWorker/Streaks.antt =====
-- The counters of src/cDatabase.cpp tell the answers of the server, and `workerThread` of
-- src/cDbWorker.cpp gives up with the 250th failure in a row.
use native.Mathlib.Nat.{mod-add-mod, mod-eq_of_lt}
use pquery.Prelude.{
  ℕ, zero, suc, ◌+◌, ◌%◌, ◌^◌, ◌≤◌, ◌<◌, Bool, true, false, List, [], ◌∷◌, ◌++◌, codes, ◌≡◌, inl,
  inr, refl, sym, ap, subst, ◌∙◌, arith, Option, none, some, ltb, leb, Bytes, length, Bool-cases,
  Option-cases,
}
use pquery.WorkerConfig.Params.{WorkerParams}
use pquery.DbWorker.Counters.{Counters, count_query, new_counters}
use pquery.DbWorker.Thread.{
  Client, ThreadState, Run, done, gave_up, thrown, out_of_list, unfinished, get_elem?, Step, next,
  stop, raise, query_number_at, query_loop, run_query, perform_query, continued, asked, after_query,
  fail_message, written, LogFile, next_or_raise, with_logs, stop_or_raise,
}
use pquery.DbWorker.Bounded.{Step_cases}

-- The answers so far, the newest first; true is success.
abbrev pub failures : List Bool → ℕ
failures [] = 0
failures (true ∷ answers) = failures answers
failures (false ∷ answers) = suc (failures answers)

-- The failures since the last success.
abbrev pub streak : List Bool → ℕ
streak [] = 0
streak (true ∷ answers) = 0
streak (false ∷ answers) = suc (streak answers)

pub record Tallies (c : Counters) (answers : List Bool) : Type 0 where
  pub performed : c.performed_queries ≡ length answers % 2 ^ 64
  pub failed : c.failed_queries ≡ failures answers % 2 ^ 64
  pub consecutive : c.consecutive_failures ≡ streak answers

one_more : (n c : ℕ) → c ≡ n % 2 ^ 64 → (c + 1) % 2 ^ 64 ≡ suc n % 2 ^ 64
one_more n c h =
    ap (λ x. (x + 1) % 2 ^ 64) h ∙ mod-add-mod n (2 ^ 64) 1 ∙ ap (λ x. x % 2 ^ 64) (omega arith)

count_query-Tallies :
    (success : Bool) (c : Counters) (answers : List Bool)
    → Tallies c answers
    → streak answers < 250
    → Tallies (count_query success c) (success ∷ answers)
unfolding count_query
count_query-Tallies true c answers t h = record {
  performed = one_more (length answers) c.performed_queries t.performed;
  failed = t.failed;
  consecutive = refl;
}
count_query-Tallies false c answers t h = record {
  performed = one_more (length answers) c.performed_queries t.performed;
  failed = one_more (failures answers) c.failed_queries t.failed;
  consecutive =
      ap (λ x. (x + 1) % 2 ^ 16) t.consecutive
      ∙ mod-eq_of_lt {n = streak answers + 1} {m = 2 ^ 16} (omega arith)
      ∙ omega arith;
}

module _ (C : Client) (p : WorkerParams) where
  abbrev pub answer : Bytes → ThreadState C → Bool
  answer query s = (C.perform_real_query query s.conn).0

  -- The answers from a state on, with no 250 failures in a row among them.
  pub data Trace (s : ThreadState C) : List Bool → ThreadState C → Type 0 where
    start : Trace s [] s
    query :
        {answers : List Bool} {t u : ThreadState C} (n : ℕ) (q : Bytes)
        → Trace s answers t
        → run_query C p n q t ≡ next u
        → streak (answer q t ∷ answers) < 250
        → Trace s (answer q t ∷ answers) u

  -- What the loop's end tells of the answers.
  pub data Story (s : ThreadState C) : Run C → Type 0 where
    finished :
        {t : ThreadState C} (answers : List Bool)
        → Trace s answers t
        → Tallies t.counters answers
        → Story s (done t)
    quit :
        {t u : ThreadState C} (answers : List Bool) (n : ℕ) (q : Bytes)
        → Trace s answers t
        → run_query C p n q t ≡ stop u
        → answer q t ≡ false
        → streak answers ≡ 249
        → Tallies u.counters (false ∷ answers)
        → Story s (gave_up u)
    exception : Story s thrown
    outside : Story s out_of_list
    open_end : Story s unfinished

  next-ne-stop : {s t : ThreadState C} (x : Step C) → x ≡ next s → ¬ (x ≡ stop t)
  next-ne-stop x h k = cc

  raise-ne-next : {t : ThreadState C} (x : Step C) → x ≡ raise → ¬ (x ≡ next t)
  raise-ne-next x h k = cc

  same_next : {s t : ThreadState C} → next s ≡ next t → s ≡ t
  same_next h = cc

  same_stop : {s t : ThreadState C} → stop s ≡ stop t → s ≡ t
  same_stop h = cc

  raise-ne-stop : {t : ThreadState C} (x : Step C) → x ≡ raise → ¬ (x ≡ stop t)
  raise-ne-stop x h k = cc

  with_logs_counters :
      (s : ThreadState C) (conn : C.Conn) (a b : Option LogFile) {t : ThreadState C}
      → next_or_raise C (with_logs C s conn a b) ≡ next t
      → t.counters ≡ s.counters
  with_logs_counters s conn none b h = absurd (raise-ne-next raise refl h)
  with_logs_counters s conn (some a) none h = absurd (raise-ne-next raise refl h)
  with_logs_counters s conn (some a) (some b) h = ap (λ x. x.counters) (sym (same_next h))

  continued_next :
      (n : ℕ) (q : Bytes) (b : Bool) (s : ThreadState C) (stats : Option Bytes) {t : ThreadState C}
      → continued C p n q b s stats ≡ next t
      → t.counters ≡ s.counters
  unfolding continued after_query
  continued_next n q b s none h = absurd (raise-ne-next raise refl h)
  continued_next n q b s (some stats) h = with_logs_counters s _ _ _ h

  next_or_raise-ne-stop :
      (o : Option (ThreadState C)) {t : ThreadState C} → ¬ (next_or_raise C o ≡ stop t)
  next_or_raise-ne-stop none = raise-ne-stop raise refl
  next_or_raise-ne-stop (some s) = next-ne-stop _ refl

  continued-ne-stop :
      (n : ℕ) (q : Bytes) (b : Bool) (s : ThreadState C) (stats : Option Bytes) {t : ThreadState C}
      → ¬ (continued C p n q b s stats ≡ stop t)
  unfolding continued
  continued-ne-stop n q b s none = raise-ne-stop raise refl
  continued-ne-stop n q b s (some stats) = next_or_raise-ne-stop _

  -- The failures in a row behind a query.
  abbrev row : Bytes → ThreadState C → ℕ
  row q s = (count_query (answer q s) s.counters).consecutive_failures

  below :
      (n : ℕ) (q : Bytes) (s : ThreadState C)
      → leb 250 (row q s) ≡ false
      → let (b, t) = perform_query C q s in
        run_query C p n q s ≡ continued C p n q b t (asked C p b t.conn t.thread_log)
  unfolding run_query perform_query
  below n q s e = rw (e) refl

  reached :
      (n : ℕ) (q : Bytes) (s : ThreadState C)
      → leb 250 (row q s) ≡ true
      → let t = (perform_query C q s).1 in
        let text = fail_message t.counters.consecutive_failures ++ codes "\n" in
        run_query C p n q s ≡ stop_or_raise C t (written text t.thread_log)
  unfolding run_query perform_query
  reached n q s e = rw (e) refl

  stop_or_raise-ne-next :
      (s : ThreadState C) (o : Option LogFile) {t : ThreadState C}
      → ¬ (stop_or_raise C s o ≡ next t)
  stop_or_raise-ne-next s none = raise-ne-next raise refl
  stop_or_raise-ne-next s (some log) = λ h. next-ne-stop _ h refl

  stop_or_raise_counters :
      (s : ThreadState C) (o : Option LogFile) {t : ThreadState C}
      → stop_or_raise C s o ≡ stop t
      → t.counters ≡ s.counters
  stop_or_raise_counters s none h = absurd (raise-ne-stop raise refl h)
  stop_or_raise_counters s (some log) h = ap (λ x. x.counters) (sym (same_stop h))

  counted_next :
      (n : ℕ) (q : Bytes) (s t : ThreadState C)
      → run_query C p n q s ≡ next t
      → (t.counters ≡ count_query (answer q s) s.counters) × (row q s < 250)
  unfolding perform_query
  counted_next n q s t h = elim (Bool-cases (leb 250 (row q s))) [
    | inl e ↦ absurd (stop_or_raise-ne-next (perform_query C q s).1 _ (sym (reached n q s e) ∙ h))
    | inr e ↦ (continued_next n q _ _ _ (sym (below n q s e) ∙ h), ground arith)
  ]

  counted_stop :
      (n : ℕ) (q : Bytes) (s t : ThreadState C)
      → run_query C p n q s ≡ stop t
      → (t.counters ≡ count_query (answer q s) s.counters) × (250 ≤ row q s)
  unfolding perform_query
  counted_stop n q s t h = elim (Bool-cases (leb 250 (row q s))) [
    | inl e ↦
        (stop_or_raise_counters (perform_query C q s).1 _ (sym (reached n q s e) ∙ h), ground arith)
    | inr e ↦ absurd (continued-ne-stop n q _ _ _ (sym (below n q s e) ∙ h))
  ]

  full_streak :
      (b : Bool) (answers : List Bool)
      → streak answers < 250
      → 250 ≤ streak (b ∷ answers)
      → (b ≡ false) × (streak answers ≡ 249)
  full_streak true answers h k = absurd (omega arith)
  full_streak false answers h k = (refl, omega arith)

  tallied :
      (q : Bytes) (s t : ThreadState C) (answers : List Bool)
      → t.counters ≡ count_query (answer q s) s.counters
      → Tallies s.counters answers
      → streak answers < 250
      → Tallies t.counters (answer q s ∷ answers)
  tallied q s t answers e c h =
      subst (λ x. Tallies x (answer q s ∷ answers)) (sym e)
        (count_query-Tallies (answer q s) s.counters answers c h)

  stopped-Story :
      (s t u : ThreadState C) (answers : List Bool) (n : ℕ) (q : Bytes)
      → Trace s answers t
      → Tallies t.counters answers
      → streak answers < 250
      → run_query C p n q t ≡ stop u
      → Story s (gave_up u)
  stopped-Story s t u answers n q h c k r =
      let (e, full) = counted_stop n q t u r in
      let tally = tallied q t u answers e c k in
      let row_is = (count_query-Tallies (answer q t) t.counters answers c k).consecutive in
      let (b, last) = full_streak (answer q t) answers k (omega arith) in
      quit answers n q h r b last (subst (λ x. Tallies u.counters (x ∷ answers)) b tally)

  query_loop_from :
      (query_list : List Bytes) (random : ℕ → ℕ) (fuel i : ℕ) (s t : ThreadState C)
      (answers : List Bool)
      → Trace s answers t
      → Tallies t.counters answers
      → streak answers < 250
      → Story s (query_loop C p query_list random fuel i t)
  unfolding query_loop
  query_loop_from query_list random zero i s t answers h c k = open_end
  query_loop_from query_list random (suc fuel) i s t answers h c k =
      elim (Bool-cases (ltb i p.queries_per_thread)) [
        | inr e ↦ rw (e) (finished answers h c)
        | inl e ↦ elim (Option-cases (get_elem? (query_number_at p random i) query_list)) [
          | inl f ↦ rw (e, f) outside
          | inr (q, f) ↦ elim (Step_cases C (run_query C p (query_number_at p random i) q t)) [
            | inl (u, r) ↦
                let (x, low) = counted_next _ q t u r in
                let more = (count_query-Tallies (answer q t) t.counters answers c k).consecutive in
                let short : streak (answer q t ∷ answers) < 250 = omega arith in
                rw (e, f, r)
                  (query_loop_from query_list random fuel ((i + 1) % 2 ^ 32) s u
                    (answer q t ∷ answers) (query _ q h r short) (tallied q t u answers x c k)
                    short)
            | inr (inl (u, r)) ↦ rw (e, f, r) (stopped-Story s t u answers _ q h c k r)
            | inr (inr r) ↦ rw (e, f, r) exception
          ]
        ]
      ]

  -- With new counters, whatever the server answers: a loop that ends with its last query has
  -- counted the answers and the failures among them modulo 2^64 and never met 250 failures in a
  -- row, and a loop that gives up has just met the 250th, so the 16 bit counter never wraps
  -- around.
  pub query_loop-Story :
      (query_list : List Bytes) (random : ℕ → ℕ) (fuel : ℕ) (s : ThreadState C)
      → s.counters ≡ new_counters
      → Story s (query_loop C p query_list random fuel 0 s)
  query_loop-Story query_list random fuel s h =
      query_loop_from query_list random fuel 0 s s [] start
        (rw (h) (record { performed = refl; failed = refl; consecutive = refl })) (omega arith)
