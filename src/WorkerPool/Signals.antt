-- ===== src/WorkerPool/Signals.antt =====
-- The signals of `waitForWorkers` in src/cWorkerPool.cpp: a worker is killed only ten seconds after it
-- was asked to end, and asked to end only behind its deadline.
use pquery.Prelude.{
  ℕ, ◌+◌, ◌<◌, Bool, true, false, not, ◌&&◌, List, [], ◌∷◌, ◌≡◌, inl, inr, refl, sym, subst, ◌∙◌,
  arith, Option, none, some, ◌==◌, ltb, if◌then◌else◌, All, is_empty, Bool-cases, Option-cases,
}
use pquery.WorkerPool.Processes.{
  WorkerProc, sigterm_grace, sigterm, sigkill, Kill, Pool, Event, exited, no_child, nobody, erase,
  reaped, check_timeout, check_timeouts, round, Waiting, finished, waiting, wait_for_workers,
}

pub data In {A : Type 0} (x : A) : List A → Type 0 where
  newest : {xs : List A} → In x (x ∷ xs)
  older : {y : A} {xs : List A} → In x xs → In x (y ∷ xs)

-- Each SIGKILL comes more than ten seconds after a SIGTERM to the same process.
pub data Justified : List Kill → Type 0 where
  no_signal : Justified []
  term :
      {pid now : ℕ} {kills : List Kill}
      → Justified kills
      → Justified (record { target = pid; signal = sigterm; at = now } ∷ kills)
  kill :
      {pid now : ℕ} {kills : List Kill} (before : ℕ)
      → In (record { target = pid; signal = sigterm; at = before }) kills
      → before + sigterm_grace < now
      → Justified kills
      → Justified (record { target = pid; signal = sigkill; at = now } ∷ kills)

-- A worker that is marked has had its SIGTERM ten seconds before its second deadline.
abbrev pub Marked : List Kill → WorkerProc → Type 0
Marked kills proc =
    proc.term_sent ≡ true
    → (before : ℕ) × (proc.kill_deadline ≡ before + sigterm_grace)
      × In (record { target = proc.pid; signal = sigterm; at = before }) kills

pub record IsOrderly (p : Pool) : Type 0 where
  pub justified : Justified p.kills
  pub marked : All (Marked p.kills) p.active_workers

-- Signals are only added.
abbrev Extends : List Kill → List Kill → Type 0
Extends kills more = (k : Kill) → In k kills → In k more

Marked-Extends :
    {kills more : List Kill} (proc : WorkerProc)
    → Extends kills more
    → Marked kills proc
    → Marked more proc
Marked-Extends proc x m h = let (before, d, i) = m h in (before, d, x _ i)

All-Extends :
    {kills more : List Kill} (procs : List WorkerProc)
    → Extends kills more
    → All (Marked kills) procs
    → All (Marked more) procs
All-Extends [] x h = tt
All-Extends (proc ∷ procs) x h = (Marked-Extends proc x h.0, All-Extends procs x h.1)

-- What the check of one worker does to the signals.
record Checked (now : ℕ) (proc : WorkerProc) (p : Pool) : Type 0 where
  extends : Extends p.kills (check_timeout now proc p).1.kills
  justified : Justified (check_timeout now proc p).1.kills
  marked : Marked (check_timeout now proc p).1.kills (check_timeout now proc p).0

check_timeout-Checked :
    (now : ℕ) (proc : WorkerProc) (p : Pool)
    → Justified p.kills
    → Marked p.kills proc
    → Checked now proc p
unfolding check_timeout
check_timeout-Checked now proc p j m =
    elim (Bool-cases (proc.has_timeout && not proc.term_sent && ltb proc.deadline now)) [
      | inl e ↦ record {
        extends = λ k i. rw (e) (older i);
        justified = rw (e) (term j);
        marked = rw (e) (λ h. (now, refl, newest));
      }
      | inr e ↦ elim (Bool-cases (proc.term_sent && ltb proc.kill_deadline now)) [
        | inl f ↦
            let (before, d, i) = m (ground arith) in
            record {
              extends = λ k i. rw (e, f) (older i);
              justified = rw (e, f) (kill before i (ground arith) j);
              marked = rw (e, f) (λ h. let (before, d, i) = m h in (before, d, older i));
            }
        | inr f ↦ record {
          extends = λ k i. rw (e, f) i;
          justified = rw (e, f) j;
          marked = rw (e, f) m;
        }
      ]
    ]

record AllChecked (now : ℕ) (procs : List WorkerProc) (p : Pool) : Type 0 where
  extends : Extends p.kills (check_timeouts now procs p).1.kills
  justified : Justified (check_timeouts now procs p).1.kills
  marked : All (Marked (check_timeouts now procs p).1.kills) (check_timeouts now procs p).0

check_timeouts-AllChecked :
    (now : ℕ) (procs : List WorkerProc) (p : Pool)
    → Justified p.kills
    → All (Marked p.kills) procs
    → AllChecked now procs p
unfolding check_timeouts
check_timeouts-AllChecked now [] p j m = record { extends = λ k i. i; justified = j; marked = tt }
check_timeouts-AllChecked now (proc ∷ procs) p j m =
    let (checked, q) = check_timeout now proc p in
    let one = check_timeout-Checked now proc p j m.0 in
    let others =
      check_timeouts-AllChecked now procs q one.justified (All-Extends procs one.extends m.1) in
    record {
      extends = λ k i. others.extends k (one.extends k i);
      justified = others.justified;
      marked = (Marked-Extends checked others.extends one.marked, others.marked);
    }

-- One worker with the PID is taken out.
pub data Removed (pid : ℕ) : List WorkerProc → List WorkerProc → Type 0 where
  this :
      {proc : WorkerProc} {procs : List WorkerProc}
      → proc.pid ≡ pid
      → Removed pid (proc ∷ procs) procs
  behind :
      {proc : WorkerProc} {procs rest : List WorkerProc}
      → Removed pid procs rest
      → Removed pid (proc ∷ procs) (proc ∷ rest)

some_same : {A : Type 0} {a b : A} → some a ≡ some b → a ≡ b
some_same h = cc

none-ne-some : {A : Type 0} {a : A} (o : Option A) → o ≡ none → ¬ (o ≡ some a)
none-ne-some o n e = cc

pub erase-Removed :
    (pid : ℕ) (procs : List WorkerProc) {rest : List WorkerProc}
    → erase pid procs ≡ some rest
    → Removed pid procs rest
unfolding erase
erase-Removed pid [] e = absurd (none-ne-some none refl e)
erase-Removed pid (proc ∷ procs) {rest} e = elim (Bool-cases (proc.pid == pid)) [
  | inl f ↦
      subst (Removed pid (proc ∷ procs)) (some_same (sym (rw (f) refl) ∙ e)) (this (ground arith))
  | inr f ↦ elim (Option-cases (erase pid procs)) [
    | inl n ↦ absurd (none-ne-some _ (rw (f, n) refl) e)
    | inr (others, n) ↦
        subst (Removed pid (proc ∷ procs)) (some_same (sym (rw (f, n) refl) ∙ e))
          (behind (erase-Removed pid procs n))
  ]
]

pub Removed-All :
    (P : WorkerProc → Type 0) (pid : ℕ) {procs rest : List WorkerProc}
    → Removed pid procs rest
    → All P procs
    → All P rest
Removed-All P pid (this e) h = h.1
Removed-All P pid (behind r) h = (h.0, Removed-All P pid r h.1)

reaped-IsOrderly :
    (pid status : ℕ) (p : Pool) (o : Option (List WorkerProc))
    → erase pid p.active_workers ≡ o
    → IsOrderly p
    → IsOrderly (reaped pid status p o)
unfolding reaped
reaped-IsOrderly pid status p none e h = h
reaped-IsOrderly pid status p (some rest) e h = record {
  justified = h.justified;
  marked = Removed-All _ pid (erase-Removed pid p.active_workers e) h.marked;
}

round-IsOrderly : (event : Event) (p : Pool) → IsOrderly p → IsOrderly (round event p)
unfolding round
round-IsOrderly (exited pid status) p h = reaped-IsOrderly pid status p _ refl h
round-IsOrderly no_child p h = h
round-IsOrderly (nobody now) p h =
    let all = check_timeouts-AllChecked now p.active_workers p h.justified h.marked in
    record { justified = all.justified; marked = all.marked }

-- The pool at the end, or so far.
abbrev pub pool_of : Waiting → Pool
pool_of (finished p) = p
pool_of (waiting p) = p

if_pool :
    (b : Bool) (p : Pool) (w : Waiting)
    → IsOrderly p
    → IsOrderly (pool_of w)
    → IsOrderly (pool_of (if b then finished p else w))
if_pool true p w h k = h
if_pool false p w h k = k

-- From a pool in which every SIGKILL had come more than ten seconds after a SIGTERM to the same
-- process, and every marked worker had had its SIGTERM, the same holds after any sequence of
-- events.
pub wait_for_workers-IsOrderly :
    (events : List Event) {p : Pool} → IsOrderly p → IsOrderly (pool_of (wait_for_workers events p))
unfolding wait_for_workers
wait_for_workers-IsOrderly [] {p} h = if_pool (is_empty p.active_workers) p (waiting p) h h
wait_for_workers-IsOrderly (no_child ∷ events) h = h
wait_for_workers-IsOrderly (exited pid status ∷ events) {p} h =
    if_pool (is_empty p.active_workers) p _ h
      (wait_for_workers-IsOrderly events (round-IsOrderly (exited pid status) p h))
wait_for_workers-IsOrderly (nobody now ∷ events) {p} h =
    if_pool (is_empty p.active_workers) p _ h
      (wait_for_workers-IsOrderly events (round-IsOrderly (nobody now) p h))
