-- ===== src/WorkerPool/Separate.antt =====
-- The logs of the master and of a worker that `spawnWorker` of src/cWorkerPool.cpp starts.
use pquery.Prelude.{
  Bool, true, false, List, [], ◌++◌, ◌≡◌, ◌≢◌, refl, sym, ap, subst, ◌∙◌, Bytes, codes, All, lookup,
  ℕ, if◌then◌else◌, All-append,
}
use pquery.WorkerConfig.Params.{BuildFlags, WorkerParams}
use pquery.Logger.Operations.{LogState, returned, init_log_file}
use pquery.Logger.Calls.{Call, and_then, call, record_added}
use pquery.Logger.Refines.{flush_log_ready}
use pquery.Logger.Texts.{
  IsText, Writing, texts_of, call-Writing, sequence-Writing, init_log_file-Writing, no_pending,
}
use pquery.Logger.Untouched.{init_log_file-Keeps, texts-Keeps}
use pquery.WorkerPool.Spawning.{Fork, failed, parent, worker, has_server}
use pquery.WorkerPool.ChildLog.{worker_log, worker_details, reinit_child_log}
use pquery.WorkerPool.SpawnLog.{master_line, child_calls, forked, spawn_log}

worker_details-IsText : (p : WorkerParams) → All IsText (worker_details p)
unfolding worker_details
worker_details-IsText p = search

All-if :
    (b : Bool) (calls more : List Call)
    → All IsText calls
    → All IsText more
    → All IsText (if b then calls else more)
All-if true calls more h k = h
All-if false calls more h k = k

child_calls-IsText :
    (flags : BuildFlags) (p : WorkerParams) (calls : List Call)
    → All IsText calls
    → All IsText (child_calls flags p calls)
unfolding child_calls
child_calls-IsText flags p calls h =
    All-append IsText (if p.verbose then worker_details p else []) _
      (All-if p.verbose (worker_details p) [] (worker_details-IsText p) tt)
      (All-if (has_server flags p.dbtype) calls _ h (tt, tt))

module _ (can_open : Bytes → Bool) (flags : BuildFlags) (master_log_dir strerror : Bytes)
    {path content : Bytes} (p : WorkerParams) (calls : List Call) (s : LogState) where
  spawn_log-forked :
      (fork : Fork)
      → Writing path content s
      → spawn_log can_open flags master_log_dir strerror fork p calls s
        ≡ forked can_open flags master_log_dir strerror fork p calls s
  unfolding spawn_log
  spawn_log-forked fork w =
      ap (λ first. and_then first (forked can_open flags master_log_dir strerror fork p calls))
        (flush_log_ready s w.ready)

  -- The master's line stands behind what it has written.
  spawn_log-master :
      (fork : Fork)
      → Writing path content s
      → ((success : Bool) → fork ≢ worker success)
      → let after = spawn_log can_open flags master_log_dir strerror fork p calls s in
        (after.0 ≡ returned)
        × Writing path (content ++ (master_line strerror fork ++ codes "\n")) after.1
  unfolding forked call
  spawn_log-master (worker success) w n = absurd (n success refl)
  spawn_log-master failed w n =
      let (ends, written, pending) =
        call-Writing can_open (record_added (master_line strerror failed)) s tt w in
      subst
        (λ x.
          (x.0 ≡ returned)
          × Writing path (content ++ (master_line strerror failed ++ codes "\n")) x.1)
        (sym (spawn_log-forked failed w)) (ends, written)
  spawn_log-master (parent pid now) w n =
      let (ends, written, pending) =
        call-Writing can_open (record_added (master_line strerror (parent pid now))) s tt w in
      subst
        (λ x.
          (x.0 ≡ returned)
          × Writing path (content ++ (master_line strerror (parent pid now) ++ codes "\n")) x.1)
        (sym (spawn_log-forked (parent pid now) w)) (ends, written)

  -- The worker's log has the texts of its calls, and the master's is as before.
  spawn_log-child :
      (success : Bool)
      → Writing path content s
      → s.logger.pending_log_file_path ≡ []
      → All IsText calls
      → worker_log master_log_dir p.my_name ≢ path
      → can_open (worker_log master_log_dir p.my_name) ≡ true
      → let after = spawn_log can_open flags master_log_dir strerror (worker success) p calls s in
        (after.0 ≡ returned)
        × Writing
            (worker_log master_log_dir p.my_name)
            (texts_of (child_calls flags p calls))
            after.1
        × (lookup path after.1.files ≡ lookup path s.files)
  unfolding forked reinit_child_log
  spawn_log-child success w no_path t n o =
      let log = worker_log master_log_dir p.my_name in
      let begun = (init_log_file can_open log s).1 in
      let target = no_pending log s no_path in
      let opened =
        subst (λ path. Writing path [] begun) target
          (init_log_file-Writing can_open log s w.target.1 (ap can_open target ∙ o)) in
      let texts = child_calls-IsText flags p calls t in
      let (ends, written, _) =
        sequence-Writing can_open (child_calls flags p calls) begun texts opened in
      let (away, kept) = init_log_file-Keeps path can_open log s (λ e. n (sym target ∙ e)) in
      subst
        (λ x.
          (x.0 ≡ returned)
          × Writing log (texts_of (child_calls flags p calls)) x.1
          × (lookup path x.1.files ≡ lookup path s.files))
        (sym (spawn_log-forked (worker success) w))
        (
          ends,
          written,
          (texts-Keeps path can_open (child_calls flags p calls) begun away texts).1 ∙ kept,
        )

  -- From a master that writes to its log and has no path left for the next one, where the log of
  -- the worker is another file that can be opened: behind a fork nothing is thrown. The master's
  -- log has the line with the PID of the worker behind what it had. In the worker's process its own
  -- log has the parameters, where the worker is verbose, then what executeTests writes, or that the
  -- program is not compiled with the client, and nothing else; and the master's log is as before.
  pub spawn_log-Separate :
      (pid now : ℕ) (success : Bool)
      → Writing path content s
      → s.logger.pending_log_file_path ≡ []
      → All IsText calls
      → worker_log master_log_dir p.my_name ≢ path
      → can_open (worker_log master_log_dir p.my_name) ≡ true
      → let in_master =
          spawn_log can_open flags master_log_dir strerror (parent pid now) p calls s in
        let in_child =
          spawn_log can_open flags master_log_dir strerror (worker success) p calls s in
        ((in_master.0 ≡ returned)
          × Writing path
              (content ++ (master_line strerror (parent pid now) ++ codes "\n"))
              in_master.1)
        × ((in_child.0 ≡ returned)
            × Writing
                (worker_log master_log_dir p.my_name)
                (texts_of (child_calls flags p calls))
                in_child.1
            × (lookup path in_child.1.files ≡ lookup path s.files))
  spawn_log-Separate pid now success w no_path t n o =
      (spawn_log-master (parent pid now) w (λ k e. cc), spawn_log-child success w no_path t n o)
