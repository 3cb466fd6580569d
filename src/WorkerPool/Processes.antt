-- ===== src/WorkerPool/Processes.antt =====
-- `WorkerPool::waitForWorkers` of src/cWorkerPool.cpp. Points of the steady clock are nanoseconds.
use pquery.Prelude.{
  ℕ, ◌+◌, ◌*◌, Bool, true, false, not, ◌&&◌, List, [], ◌∷◌, ◌++◌, Option, none, some, ◌==◌, ltb,
  if◌then◌else◌, Bytes, codes, is_empty, pos,
}
use pquery.WorkerConfig.Checks.{to_string}

pub record WorkerProc : Type 0 where
  pub pid : ℕ
  pub name : Bytes
  pub has_timeout : Bool
  pub deadline : ℕ
  pub term_sent : Bool
  pub kill_deadline : ℕ

abbrev pub sigterm_grace : ℕ
sigterm_grace = 10 * 1000000000

pub data Signal : Type 0 where
  sigterm sigkill : Signal

-- A call of `kill`, with the time that `now` holds.
pub record Kill : Type 0 where
  pub target : ℕ
  pub signal : Signal
  pub at : ℕ

-- What is written to the log.
pub data LogRecord : Type 0 where
  exit_status : ℕ → ℕ → LogRecord
  exceeded_timeout not_responding : Bytes → ℕ → LogRecord

unfoldable number : ℕ → Bytes
unfolding to_string
number n = to_string (pos n)

unfoldable pub message : LogRecord → Bytes
unfolding number
message (exit_status pid status) =
    codes "=> Exit status of child with PID " ++ number pid ++ codes ": " ++ number status
message (exceeded_timeout name pid) =
    codes "=> Worker "
    ++ name
    ++ codes " (PID "
    ++ number pid
    ++ codes ") exceeded timeout, sending SIGTERM"
message (not_responding name pid) =
    codes "=> Worker "
    ++ name
    ++ codes " (PID "
    ++ number pid
    ++ codes ") did not respond to SIGTERM, sending SIGKILL"

-- The object with `retvalue`; the records and the signals have the newest first.
pub record Pool : Type 0 where
  pub active_workers : List WorkerProc
  pub retvalue : Bool
  pub log : List LogRecord
  pub kills : List Kill

-- What `waitpid` returns in a round: a child that has exited with its status, an error, or 0, where
-- the clock is read.
pub data Event : Type 0 where
  exited : ℕ → ℕ → Event
  no_child : Event
  nobody : ℕ → Event

-- `find_if` and `erase`, or `none` where no worker has the PID.
unfoldable pub erase : ℕ → List WorkerProc → Option (List WorkerProc)
erase pid [] = none
erase pid (proc ∷ procs) =
    let others = erase pid procs in
    if proc.pid == pid
    then some procs
    else elim others [ none ↦ none | some rest ↦ some (proc ∷ rest) ]

unfoldable pub reaped : ℕ → ℕ → Pool → Option (List WorkerProc) → Pool
reaped pid status p none = p
reaped pid status p (some rest) = record p {
  active_workers = rest;
  retvalue = if not (status == 0) then false else p.retvalue;
  log = exit_status pid status ∷ p.log;
}

abbrev pub sent : WorkerProc → LogRecord → Signal → ℕ → Pool → Pool
sent proc entry signal now p = record p {
  log = entry ∷ p.log;
  kills = record { target = proc.pid; signal = signal; at = now } ∷ p.kills;
}

-- The body of the loop over the workers.
unfoldable pub check_timeout : ℕ → WorkerProc → Pool → WorkerProc × Pool
check_timeout now proc p =
    if proc.has_timeout && not proc.term_sent && ltb proc.deadline now
    then (
      record proc { term_sent = true; kill_deadline = now + sigterm_grace },
      record (sent proc (exceeded_timeout proc.name proc.pid) sigterm now p) { retvalue = false },
    )
    else if proc.term_sent && ltb proc.kill_deadline now
    then (proc, sent proc (not_responding proc.name proc.pid) sigkill now p)
    else (proc, p)

unfoldable pub check_timeouts : ℕ → List WorkerProc → Pool → List WorkerProc × Pool
unfolding check_timeout
check_timeouts now [] p = ([], p)
check_timeouts now (proc ∷ procs) p =
    let (proc, p) = check_timeout now proc p in
    let (procs, p) = check_timeouts now procs p in (proc ∷ procs, p)

-- The loop has ended, or waits for more events.
pub data Waiting : Type 0 where
  finished waiting : Pool → Waiting

-- A round that goes on.
unfoldable pub round : Event → Pool → Pool
unfolding erase reaped check_timeouts
round (exited pid status) p = reaped pid status p (erase pid p.active_workers)
round no_child p = p
round (nobody now) p =
    let (procs, q) = check_timeouts now p.active_workers p in record q { active_workers = procs }

unfoldable pub wait_for_workers : List Event → Pool → Waiting
unfolding round
wait_for_workers [] p = if is_empty p.active_workers then finished p else waiting p
wait_for_workers (no_child ∷ events) p = finished p
wait_for_workers (event ∷ events) p =
    let rest = wait_for_workers events (round event p) in
    if is_empty p.active_workers then finished p else rest
