-- ===== src/PQuery/Redirects.antt =====
-- Where the log of the master goes, and that of a worker behind it: `initLogger` of src/cPQuery.cpp
-- and `reinitChildLog` of src/cWorkerPool.cpp on one `Logger`.
use pquery.Prelude.{
  pos, Bool, true, List, [], ◌∷◌, ◌≡◌, ◌≢◌, refl, sym, ap, ◌∙◌, none, some, if◌then◌else◌, Bytes,
  is_empty, lookup, All,
}
use pquery.IniReader.Reader.{IniReader}
use pquery.Logger.Stream.{Files}
use pquery.Logger.Operations.{Ended, LogState, returned, new_logger, init_log_file, target_path}
use pquery.Logger.Calls.{Call, sequence}
use pquery.Logger.Journal.{journal, new_target}
use pquery.Logger.Refines.{init_log_file_result, if_not}
use pquery.Logger.Texts.{
  IsText, texts_of, no_pending, sequence-Writing, init_log_file-Writing, init_log_file-new_target,
}
use pquery.Logger.Untouched.{init_log_file-Keeps, texts-Keeps}
use pquery.Cli.Texts.{BuildInfo}
use pquery.Cli.Options.{CliOptions}
use pquery.WorkerPool.ChildLog.{worker_log, reinit_child_log}
use pquery.PQuery.Startup.{master_log_file, with_path, init_logger}

-- The path of the command line, or that of the configuration where there is none.
abbrev pub log_path : BuildInfo → CliOptions → IniReader → Bytes
log_path build options reader =
    if is_empty options.log_file_path then master_log_file build reader else options.log_file_path

abbrev start : Files → LogState
start files = record { logger = new_logger; files = files }

path_pending :
    (path : Bytes) (files : Files)
    → (with_path path (start files)).logger.pending_log_file_path ≡ path
unfolding with_path new_logger
path_pending [] files = refl
path_pending (c ∷ path) files = refl

with_path_files :
    (path : Bytes) (files : Files)
    → ((with_path path (start files)).files ≡ files)
      × ((with_path path (start files)).logger.log_file.path ≡ none)
      × ((with_path path (start files)).logger.log_file.width ≡ pos 0)
unfolding with_path new_logger
with_path_files [] files = (refl, refl, refl)
with_path_files (c ∷ path) files = (refl, refl, refl)

-- The log of the master, and that of its child.
abbrev pub started :
    (Bytes → Bool) → BuildInfo → CliOptions → IniReader → Files → List Call → Ended × LogState
started can_open build options reader files calls =
    sequence can_open calls (init_logger can_open build options reader files).1

pub record Redirected (can_open : Bytes → Bool) (files : Files) (path text : Bytes) (opened : Bool)
    (master : Ended × LogState) : Type 0 where
  pub is_opened : opened ≡ true
  pub is_returned : master.0 ≡ returned
  pub log_file : (journal master.1).target ≡ some (path, text)
  pub others : (other : Bytes) → path ≢ other → lookup other master.1.files ≡ lookup other files
  pub child_log :
      (dir name : Bytes)
      → (journal (reinit_child_log can_open dir name master.1)).target
        ≡ new_target can_open (worker_log dir name)
  pub behind :
      (dir name other : Bytes)
      → worker_log dir name ≢ other
      → lookup other (reinit_child_log can_open dir name master.1).files
        ≡ lookup other master.1.files

module _ (can_open : Bytes → Bool) (build : BuildInfo) (options : CliOptions) (reader : IniReader)
    (files : Files) (calls : List Call) where
  target :
      target_path
        (master_log_file build reader)
        (with_path options.log_file_path (start files)).logger
      ≡ log_path build options reader
  target =
      rw (path_pending options.log_file_path files) (
        if_not (is_empty options.log_file_path) options.log_file_path
          (master_log_file build reader))

  -- `initLogger` returns true exactly if this path can be opened.
  pub init_logger_result :
      (init_logger can_open build options reader files).0 ≡ can_open (log_path build options reader)
  unfolding init_logger
  init_logger_result =
      init_log_file_result can_open (master_log_file build reader)
        (with_path options.log_file_path (start files))
      ∙ ap can_open target

  -- Where the path of -L, or that of the configuration where there is none, can be opened,
  -- initLogger returns true, and what the master then writes stands in this file alone: no record
  -- throws, and no other file changes. The path of -L is not used again: behind it reinitChildLog
  -- opens the file of its worker, and changes no other one.
  pub init_logger-Redirected :
      can_open (log_path build options reader) ≡ true
      → All IsText calls
      → Redirected can_open files
          (log_path build options reader)
          (texts_of calls)
          (init_logger can_open build options reader files).0
          (started can_open build options reader files calls)
  unfolding init_logger init_log_file reinit_child_log
  init_logger-Redirected h t =
      let first = with_path options.log_file_path (start files) in
      let begun = (init_logger can_open build options reader files).1 in
      let w =
        init_log_file-Writing can_open (master_log_file build reader) first
          (with_path_files options.log_file_path files).2 (ap can_open target ∙ h) in
      let (done, written, pending) = sequence-Writing can_open calls begun t w in
      let no_path : begun.logger.pending_log_file_path ≡ [] = refl in
      let master = (started can_open build options reader files calls).1 in
      record {
        is_opened =
            init_log_file_result can_open (master_log_file build reader) first
            ∙ ap can_open target
            ∙ h;
        is_returned = done;
        log_file = written.target.0 ∙ ap (λ p. some (p, texts_of calls)) target;
        others = λ other n.
            let (away, kept) =
              init_log_file-Keeps other can_open (master_log_file build reader) first
                (λ e. n (sym target ∙ e)) in
            (texts-Keeps other can_open calls begun away t).1
            ∙ kept
            ∙ ap (lookup other) (with_path_files options.log_file_path files).0;
        child_log = λ dir name.
            init_log_file-new_target can_open (worker_log dir name) master (pending ∙ no_path);
        behind = λ dir name other n.
            (init_log_file-Keeps other can_open (worker_log dir name) master
              (λ e. n (sym (no_pending (worker_log dir name) master (pending ∙ no_path)) ∙ e))).1;
      }
