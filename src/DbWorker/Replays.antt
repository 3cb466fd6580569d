-- ===== src/DbWorker/Replays.antt =====
-- With "shuffle = False" the loop of `workerThread` in src/cDbWorker.cpp sends the query list in its
-- order, each query once.
use native.Mathlib.Nat.{mod-eq_of_lt}
use pquery.Prelude.{
  ℕ, zero, suc, ◌+◌, ◌^◌, ◌<◌, true, false, List, [], ◌∷◌, ◌++◌, ◌≡◌, inl, inr, refl, sym, ap,
  subst, ◌∙◌, arith, some, ltb, Bytes, length, length-append, append_assoc,
}
use pquery.WorkerConfig.Params.{WorkerParams}
use pquery.DbWorker.Thread.{
  Client, ThreadState, Run, done, gave_up, thrown, get_elem?, Step, next, stop, raise,
  query_number_at, query_loop, run_query,
}
use pquery.DbWorker.Bounded.{Step_cases}

module _ (C : Client) (p : WorkerParams) where
  -- The queries are sent one after the other, the first one with the given number.
  pub data Sends : ℕ → List Bytes → ThreadState C → ThreadState C → Type 0 where
    nothing : {i : ℕ} {s : ThreadState C} → Sends i [] s s
    sent :
        {i : ℕ} {query : Bytes} {queries : List Bytes} {s t u : ThreadState C}
        → run_query C p i query s ≡ next t
        → Sends (i + 1) queries t u
        → Sends i (query ∷ queries) s u

  -- The queries in the list from number `i` on, and the end of the loop over them.
  pub data Replay : ℕ → List Bytes → ThreadState C → Run C → Type 0 where
    whole :
        {i : ℕ} {queries : List Bytes} {s t : ThreadState C}
        → Sends i queries s t
        → Replay i queries s (done t)
    given_up :
        {i : ℕ} (front : List Bytes) (query : Bytes) (rest : List Bytes) {s t u : ThreadState C}
        → Sends i front s t
        → run_query C p (i + length front) query t ≡ stop u
        → Replay i (front ++ query ∷ rest) s (gave_up u)
    raised :
        {i : ℕ} (front : List Bytes) (query : Bytes) (rest : List Bytes) {s t : ThreadState C}
        → Sends i front s t
        → run_query C p (i + length front) query t ≡ raise
        → Replay i (front ++ query ∷ rest) s thrown

  sent-Replay :
      (i : ℕ) (query : Bytes) {queries : List Bytes} {s t : ThreadState C} {r : Run C}
      → run_query C p i query s ≡ next t
      → Replay (i + 1) queries t r
      → Replay i (query ∷ queries) s r
  sent-Replay i query e (whole h) = whole (sent e h)
  sent-Replay i query e (given_up front q rest {t} {u} h k) =
      given_up (query ∷ front) q rest (sent e h)
        (subst (λ n. run_query C p n q t ≡ stop u) (omega arith) k)
  sent-Replay i query e (raised front q rest {t} h k) =
      raised (query ∷ front) q rest (sent e h)
        (subst (λ n. run_query C p n q t ≡ raise) (omega arith) k)

  get_elem?-length :
      (front : List Bytes) (query : Bytes) (back : List Bytes)
      → get_elem? (length front) (front ++ query ∷ back) ≡ some query
  unfolding get_elem?
  get_elem?-length [] query back = refl
  get_elem?-length (q ∷ front) query back = get_elem?-length front query back

  in_order : (random : ℕ → ℕ) (i : ℕ) → p.shuffle ≡ false → query_number_at p random i ≡ i
  in_order random i h = rw (h) refl

  -- The query behind `front` counted to it.
  moved-Replay :
      (random : ℕ → ℕ) (front : List Bytes) (query : Bytes) (back : List Bytes) (fuel : ℕ)
      (s : ThreadState C)
      → let more = front ++ query ∷ [] in
        Replay (length more) back s (query_loop C p (more ++ back) random fuel (length more) s)
        → Replay
            (length front + 1)
            back
            s
            (query_loop C p (front ++ query ∷ back) random fuel (length front + 1) s)
  moved-Replay random front query back fuel s ih =
      let more = front ++ query ∷ [] in
      let one : length more ≡ length front + 1 = length-append front (query ∷ []) in
      subst
        (λ l. Replay (length front + 1) back s (query_loop C p l random fuel (length front + 1) s))
        (append_assoc front (query ∷ []) back)
        (subst (λ m. Replay m back s (query_loop C p (more ++ back) random fuel m s)) one ih)

  query_loop_from :
      (random : ℕ → ℕ) (front back : List Bytes) (fuel : ℕ) (s : ThreadState C)
      → p.shuffle ≡ false
      → p.queries_per_thread ≡ length (front ++ back)
      → length (front ++ back) < 2 ^ 32
      → length back < fuel
      → Replay (length front) back s (query_loop C p (front ++ back) random fuel (length front) s)
  unfolding query_loop
  query_loop_from random front back zero s h n k f = absurd (omega arith)
  query_loop_from random front [] (suc fuel) s h n k f =
      let e : ltb (length front) p.queries_per_thread ≡ false =
        ground (arith, length-append front []) in
      rw (e) (whole nothing)
  query_loop_from random front (query ∷ back) (suc fuel) s h n k f =
      let len = length-append front (query ∷ back) in
      let e : ltb (length front) p.queries_per_thread ≡ true = ground (arith, len) in
      let at = in_order random (length front) h in
      let found : get_elem? (query_number_at p random (length front)) (front ++ query ∷ back)
          ≡ some query =
        ap (λ m. get_elem? m (front ++ query ∷ back)) at ∙ get_elem?-length front query back in
      let first : (x : Step C)
          → run_query C p (query_number_at p random (length front)) query s ≡ x
          → run_query C p (length front + 0) query s ≡ x =
        λ x r. ap (λ m. run_query C p m query s) (omega arith ∙ sym at) ∙ r in
      elim (Step_cases C (run_query C p (query_number_at p random (length front)) query s)) [
        | inl (t, r) ↦
            let same = append_assoc front (query ∷ []) back in
            let ih =
              query_loop_from random (front ++ query ∷ []) back fuel t h (n ∙ ap length (sym same))
                (subst (λ l. length l < 2 ^ 32) (sym same) k) (omega arith) in
            rw (e, found, r, mod-eq_of_lt {n = length front + 1} {m = 2 ^ 32} (omega (arith, len)))
              (sent-Replay (length front) query (ap (λ m. run_query C p m query s) (sym at) ∙ r)
                (moved-Replay random front query back fuel t ih))
        | inr (inl (t, r)) ↦ rw (e, found, r) (given_up [] query back nothing (first _ r))
        | inr (inr r) ↦ rw (e, found, r) (raised [] query back nothing (first _ r))
      ]

  -- Where the queries are replayed, as many as the list has and fewer than 2^32, the loop of a
  -- thread sends the whole list in its order, unless too many queries in a row fail or an
  -- exception is thrown: then it has sent the queries up to that one. It ends within one round
  -- more than there are queries, and never goes behind the list.
  pub query_loop-Replay :
      (random : ℕ → ℕ) (query_list : List Bytes) (s : ThreadState C)
      → p.shuffle ≡ false
      → p.queries_per_thread ≡ length query_list
      → length query_list < 2 ^ 32
      → Replay 0 query_list s (query_loop C p query_list random (suc (length query_list)) 0 s)
  query_loop-Replay random query_list s h n k =
      query_loop_from random [] query_list (suc (length query_list)) s h n k (omega arith)
