-- ===== src/WorkerPool/Started.antt =====
-- `runAll` of src/cWorkerPool.cpp in the master: every worker is started before the first is waited
-- for, none of them marked.
use pquery.Prelude.{
  ℕ, true, List, [], ◌∷◌, ◌++◌, ◌≡◌, ◌↔◌, refl, sym, ap, ◌∙◌, map, All, append_assoc, append-nil,
}
use pquery.WorkerConfig.Params.{BuildFlags, WorkerParams}
use pquery.WorkerPool.Processes.{
  WorkerProc, Pool, Event, Waiting, finished, waiting, wait_for_workers,
}
use pquery.WorkerPool.Spawning.{
  Fork, parent, Running, returned, running, result_of, new_proc, run_all,
}
use pquery.WorkerPool.Signals.{Marked, Justified, no_signal, wait_for_workers-IsOrderly, pool_of}
use pquery.WorkerPool.Outcome.{Good, Unmarked, wait_for_workers_verdict}

abbrev pub empty_pool : Pool
empty_pool = record { active_workers = []; retvalue = true; log = []; kills = [] }

-- A PID, the time, and the parameters of a worker that is started.
abbrev pub Start : Type 0
Start = ℕ × ℕ × WorkerParams

abbrev pub fork_of : Start → Fork × WorkerParams
fork_of (pid, now, params) = (parent pid now, params)

abbrev pub proc_of : Start → WorkerProc
proc_of (pid, now, params) = new_proc pid now params

abbrev pub pool_with : List WorkerProc → Pool
pool_with procs = record empty_pool { active_workers = procs }

run_all_started :
    (flags : BuildFlags) (starts : List Start) (events : List Event) (procs : List WorkerProc)
    → run_all flags (map fork_of starts) events (pool_with procs)
      ≡ result_of (wait_for_workers events (pool_with (procs ++ map proc_of starts)))
unfolding run_all
run_all_started flags [] events procs =
    ap (λ l. result_of (wait_for_workers events (pool_with l))) (sym (append-nil procs))
run_all_started flags ((pid, now, params) ∷ starts) events procs =
    run_all_started flags starts events (procs ++ new_proc pid now params ∷ [])
    ∙ ap (λ l. result_of (wait_for_workers events (pool_with l)))
        (append_assoc procs (new_proc pid now params ∷ []) (map proc_of starts))

new-Unmarked : (starts : List Start) → All Unmarked (map proc_of starts)
unfolding new_proc
new-Unmarked [] = tt
new-Unmarked (start ∷ starts) = (refl, new-Unmarked starts)

new-Marked : (starts : List Start) → All (Marked []) (map proc_of starts)
unfolding new_proc
new-Marked [] = tt
new-Marked (start ∷ starts) = (λ h. absurd cc, new-Marked starts)

-- The pool that a call of `runAll` leaves.
abbrev pub pool_left : Running → Pool
pool_left (returned b p) = p
pool_left (running p) = p

-- What the result tells of the log and the signals.
abbrev pub Reports : Running → Type 0
Reports (returned b p) = ((b ≡ true) ↔ All Good p.log) × Justified p.kills
Reports (running p) = Justified p.kills

result-Reports :
    (w : Waiting)
    → let q = pool_of w in
      ((q.retvalue ≡ true) ↔ All Good q.log) × Justified q.kills → Reports (result_of w)
result-Reports (finished p) h = h
result-Reports (waiting p) h = h.1

-- Where every fork succeeds, the master starts all workers from an empty pool. When runAll
-- returns, its result is true exactly if the log has nothing but exits with status 0, and at any
-- time each SIGKILL has come more than ten seconds after a SIGTERM to the same process.
pub run_all-Reports :
    (flags : BuildFlags) (starts : List Start) (events : List Event)
    → Reports (run_all flags (map fork_of starts) events empty_pool)
run_all-Reports flags starts events =
    let p = pool_with (map proc_of starts) in
    rw (run_all_started flags starts events []) (
      result-Reports (wait_for_workers events p) (
        wait_for_workers_verdict events
            (record { no_record = refl; ok = refl; unmarked = new-Unmarked starts }),
        (wait_for_workers-IsOrderly events
            (record { justified = no_signal; marked = new-Marked starts })).justified,
      ))
