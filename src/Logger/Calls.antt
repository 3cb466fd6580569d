-- ===== src/Logger/Calls.antt =====
-- Sequences of calls of a `Logger` of src/cLogger.cpp, and the state that they keep.
use pquery.Prelude.{ℕ, Bool, not, List, [], ◌∷◌, ◌≡◌, Bytes, ℤ}
use pquery.Logger.Stream.{Stream, is_open}
use pquery.Logger.Operations.{
  LogState, Ended, returned, threw, add_separation, set_log_file_path, init_log_file, set_precision,
  flush_log, add_record_to_log, add_partial_record, insert,
}

-- A call of a member function.
pub data Call : Type 0 where
  separation : ℕ → ℤ → Call
  path_set initialised : Bytes → Call
  precision_set : ℤ → Call
  flushed : Call
  record_added partial_added inserted : Bytes → Call

-- What follows is left out behind an exception.
abbrev pub and_then : Ended × LogState → (LogState → Ended × LogState) → Ended × LogState
and_then (returned, s) rest = rest s
and_then (threw, s) rest = (threw, s)

module _ (can_open : Bytes → Bool) where
  -- What the call leaves, and whether it throws. The result of `initLogFile` is dropped.
  unfoldable pub call : Call → LogState → Ended × LogState
  unfolding add_separation set_log_file_path init_log_file set_precision flush_log add_record_to_log
      add_partial_record insert
  call (separation what lenght) s = (returned, add_separation what lenght s)
  call (path_set path) s = (returned, set_log_file_path path s)
  call (initialised path) s = (returned, (init_log_file can_open path s).1)
  call (precision_set n) s = (returned, set_precision n s)
  call flushed s = flush_log s
  call (record_added message) s = add_record_to_log message s
  call (partial_added message) s = add_partial_record message s
  call (inserted rhs) s = insert rhs s

  unfoldable pub run_calls : List Call → LogState → List Ended × LogState
  unfolding call
  run_calls [] s = ([], s)
  run_calls (c ∷ calls) s = let (e, s) = call c s in let (es, s) = run_calls calls s in (e ∷ es, s)

  -- Calls in a row, up to one that throws.
  unfoldable pub sequence : List Call → LogState → Ended × LogState
  unfolding call
  sequence [] s = (returned, s)
  sequence (c ∷ calls) s = and_then (call c s) (sequence calls)

-- The stream is usable exactly when it is open: so `initLogFile` leaves it.
abbrev pub IsReady : Stream → Type 0
IsReady stream = stream.failed ≡ not (is_open stream)
