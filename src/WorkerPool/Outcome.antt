-- ===== src/WorkerPool/Outcome.antt =====
-- The result of `waitForWorkers` in src/cWorkerPool.cpp: it is true exactly where the log has nothing
-- but exits with status 0.
use mathlib.Core.Bool.{false≢true}
use pquery.Prelude.{
  ℕ, Bool, true, false, not, ◌&&◌, List, [], ◌∷◌, ◌≡◌, ◌↔◌, inl, inr, refl, sym, subst, arith,
  Option, none, some, ◌==◌, ltb, if◌then◌else◌, All, is_empty, Bool-cases,
}
use pquery.WorkerPool.Processes.{
  WorkerProc, LogRecord, exit_status, exceeded_timeout, not_responding, Pool, Event, exited,
  no_child, nobody, erase, reaped, check_timeout, check_timeouts, round, Waiting, finished, waiting,
  wait_for_workers,
}
use pquery.WorkerPool.Signals.{erase-Removed, Removed-All, pool_of}

abbrev pub Good : LogRecord → Type 0
Good (exit_status pid status) = status ≡ 0
Good (exceeded_timeout name pid) = ⊥
Good (not_responding name pid) = ⊥

abbrev pub Unmarked : WorkerProc → Type 0
Unmarked proc = proc.term_sent ≡ false

-- The result so far agrees with the log, and no worker is marked while it is true.
pub record Agrees (p : Pool) (procs : List WorkerProc) : Type 0 where
  pub sound : p.retvalue ≡ true → All Good p.log
  pub complete : All Good p.log → p.retvalue ≡ true
  pub unmarked : p.retvalue ≡ true → All Unmarked procs

-- The check of one worker in front of others.
record After (p q : Pool) (proc : WorkerProc) (procs : List WorkerProc) : Type 0 where
  agrees : Agrees q procs
  still : q.retvalue ≡ true → Unmarked proc
  kept : q.retvalue ≡ true → p.retvalue ≡ true

check_timeout-After :
    (now : ℕ) (proc : WorkerProc) (procs : List WorkerProc) (p : Pool)
    → Agrees p (proc ∷ procs)
    → After p (check_timeout now proc p).1 (check_timeout now proc p).0 procs
unfolding check_timeout
check_timeout-After now proc procs p a =
    elim (Bool-cases (proc.has_timeout && not proc.term_sent && ltb proc.deadline now)) [
      | inl e ↦ rw (e) (record {
        agrees = record {
          sound = λ h. absurd (false≢true h);
          complete = λ h. absurd h.0;
          unmarked = λ h. absurd (false≢true h);
        };
        still = λ h. absurd (false≢true h);
        kept = λ h. absurd (false≢true h);
      })
      | inr e ↦ elim (Bool-cases (proc.term_sent && ltb proc.kill_deadline now)) [
        | inl f ↦
            let never : ¬ (p.retvalue ≡ true) = λ h. let u = (a.unmarked h).0 in ground arith in
            rw (e, f)
              (record {
                agrees = record {
                  sound = λ h. absurd (never h);
                  complete = λ h. absurd h.0;
                  unmarked = λ h. absurd (never h);
                };
                still = λ h. absurd (never h);
                kept = λ h. h;
              })
        | inr f ↦
            rw (e, f)
              (record {
                agrees = record {
                  sound = a.sound;
                  complete = a.complete;
                  unmarked = λ h. (a.unmarked h).1;
                };
                still = λ h. (a.unmarked h).0;
                kept = λ h. h;
              })
      ]
    ]

check_timeouts-Agrees :
    (now : ℕ) (procs : List WorkerProc) (p : Pool)
    → Agrees p procs
    → Agrees (check_timeouts now procs p).1 (check_timeouts now procs p).0
      × ((check_timeouts now procs p).1.retvalue ≡ true → p.retvalue ≡ true)
unfolding check_timeouts
check_timeouts-Agrees now [] p a = (a, λ h. h)
check_timeouts-Agrees now (proc ∷ procs) p a =
    let one = check_timeout-After now proc procs p a in
    let (others, kept) = check_timeouts-Agrees now procs (check_timeout now proc p).1 one.agrees in
    (
      record {
        sound = others.sound;
        complete = others.complete;
        unmarked = λ h. (one.still (kept h), others.unmarked h);
      },
      λ h. one.kept (kept h),
    )

reaped-Agrees :
    (pid status : ℕ) (p : Pool) (o : Option (List WorkerProc))
    → erase pid p.active_workers ≡ o
    → Agrees p p.active_workers
    → Agrees (reaped pid status p o) (reaped pid status p o).active_workers
unfolding reaped
reaped-Agrees pid status p none e a = a
reaped-Agrees pid status p (some rest) e a = elim (Bool-cases (status == 0)) [
  | inl z ↦ rw (z) (record {
    sound = λ h. (ground arith, a.sound h);
    complete = λ h. a.complete h.1;
    unmarked = λ h. Removed-All _ pid (erase-Removed pid p.active_workers e) (a.unmarked h);
  })
  | inr z ↦ rw (z) (record {
    sound = λ h. absurd (false≢true h);
    complete = λ h. let s = h.0 in absurd (ground arith);
    unmarked = λ h. absurd (false≢true h);
  })
]

pub Verdict : Pool → Type 0
Verdict p = Agrees p p.active_workers

round-Verdict : (event : Event) (p : Pool) → Verdict p → Verdict (round event p)
unfolding round Verdict
round-Verdict (exited pid status) p a = reaped-Agrees pid status p _ refl a
round-Verdict no_child p a = a
round-Verdict (nobody now) p a =
    let (b, _) = check_timeouts-Agrees now p.active_workers p a in
    record { sound = b.sound; complete = b.complete; unmarked = b.unmarked }

if_Verdict :
    (b : Bool) (p : Pool) (w : Waiting)
    → Verdict p
    → Verdict (pool_of w)
    → Verdict (pool_of (if b then finished p else w))
if_Verdict true p w h k = h
if_Verdict false p w h k = k

wait_for_workers-Verdict :
    (events : List Event) (p : Pool) → Verdict p → Verdict (pool_of (wait_for_workers events p))
unfolding wait_for_workers
wait_for_workers-Verdict [] p h = if_Verdict (is_empty p.active_workers) p (waiting p) h h
wait_for_workers-Verdict (no_child ∷ events) p h = h
wait_for_workers-Verdict (exited pid status ∷ events) p h =
    if_Verdict (is_empty p.active_workers) p _ h
      (wait_for_workers-Verdict events _ (round-Verdict (exited pid status) p h))
wait_for_workers-Verdict (nobody now ∷ events) p h =
    if_Verdict (is_empty p.active_workers) p _ h
      (wait_for_workers-Verdict events _ (round-Verdict (nobody now) p h))

-- The pool with its workers started, none of them asked to end.
pub record IsFresh (p : Pool) : Type 0 where
  pub no_record : p.log ≡ []
  pub ok : p.retvalue ≡ true
  pub unmarked : All Unmarked p.active_workers

-- From a pool with an empty log, a true result and no marked worker, after any sequence of events
-- the result is true exactly where every record of the log is an exit with status 0: no worker
-- failed, none ran into its timeout, none had to be killed.
pub wait_for_workers_verdict :
    (events : List Event) {p : Pool}
    → IsFresh p
    → let q = pool_of (wait_for_workers events p) in (q.retvalue ≡ true) ↔ All Good q.log
unfolding Verdict
wait_for_workers_verdict events {p} f =
    let v = wait_for_workers-Verdict events p (record {
      sound = λ h. subst (All Good) (sym f.no_record) tt;
      complete = λ h. f.ok;
      unmarked = λ h. f.unmarked;
    }) in
    (v.sound, v.complete)
