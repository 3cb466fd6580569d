-- ===== src/Logger/Examples.antt =====
-- Runs of the logger of src/cLogger.cpp, and its theorem at a concrete input.
use pquery.Prelude.{Bool, List, [], ◌∷◌, ◌≡◌, refl, Bytes, codes, equal, pos, not}
use pquery.Logger.Operations.{LogState, Ended, returned, threw, new_logger}
use pquery.Logger.Calls.{
  Call, separation, path_set, initialised, record_added, partial_added, flushed, run_calls, IsReady,
}
use pquery.Logger.Journal.{journal, note_all}
use pquery.Logger.Refines.{run_calls-note_all}

-- Only files below /tmp can be opened.
abbrev can_open : Bytes → Bool
can_open path = not (equal path (codes "/root/a"))

abbrev start : LogState
start = record { logger = new_logger; files = (codes "/tmp/a", codes "old") ∷ [] }

abbrev calls : List Call
calls =
    path_set (codes "/tmp/a")
    ∷ initialised (codes "/tmp/b")
    ∷ record_added (codes "one")
    ∷ separation b'#' (pos 3)
    ∷ initialised (codes "/tmp/b")
    ∷ partial_added (codes "two")
    ∷ flushed
    ∷ []

run : List Ended × LogState
unfolding run_calls new_logger
run = run_calls can_open calls start

-- The path that was set is for the first file only, and its old content is gone.
run_files : (run.1).files ≡ (codes "/tmp/a", codes "one\n##\n") ∷ (codes "/tmp/b", codes "two") ∷ []
unfolding run equal
run_files = refl

-- Behind a file that cannot be opened a record is an exception.
run_refused :
    (run_calls can_open (initialised (codes "/root/a") ∷ record_added (codes "one") ∷ []) start).0
    ≡ returned ∷ threw ∷ []
unfolding run equal
run_refused = refl

-- A separation that a failed stream does not print pads the first text of the next file.
run_left_width :
    ((run_calls can_open
      (initialised (codes "/root/a")
        ∷ separation b'#' (pos 5)
        ∷ initialised (codes "/tmp/b")
        ∷ record_added (codes "one")
        ∷ [])
      start).1
    ).files
    ≡ (codes "/tmp/a", codes "old") ∷ (codes "/tmp/b", codes "##one\n") ∷ []
unfolding run equal
run_left_width = refl

ready : LogState
unfolding run
ready = run.1

run_calls-note_all_example :
    let again = run_calls can_open calls ready in
    let expected = note_all can_open calls (journal ready) in
    (again.0 ≡ expected.0) × (journal again.1 ≡ expected.1) × IsReady again.1.logger.log_file
unfolding ready equal
run_calls-note_all_example = run_calls-note_all can_open calls ready refl
