-- ===== src/Logger/Operations.antt =====
-- The class `Logger` of src/cLogger.hpp and src/cLogger.cpp. The mutex makes each call one step.
use pquery.Prelude.{
  ℕ, Bool, true, false, not, [], none, if◌then◌else◌, Bytes, codes, is_empty, ℤ, pos,
}
use pquery.Logger.Stream.{Files, Stream, is_open, put, close, open_file}

pub record Logger : Type 0 where
  pub log_file : Stream
  pub pending_log_file_path : Bytes

-- The object with the disk.
pub record LogState : Type 0 where
  pub logger : Logger
  pub files : Files

-- How a call ends: it returns, or throws a `std::runtime_error`.
pub data Ended : Type 0 where
  returned threw : Ended

unfoldable pub new_logger : Logger
new_logger = record {
  log_file = record {
    path = none;
    failed = false;
    fill = b' ';
    width = pos 0;
    precision = pos 6;
    fixed = false;
  };
  pending_log_file_path = [];
}

abbrev with_stream : LogState → Stream × Files → LogState
with_stream s (stream, files) = record s {
  logger = record s.logger { log_file = stream };
  files = files;
}

unfoldable pub written_to : Bytes → LogState → LogState
unfolding put
written_to text s = with_stream s (put text s.logger.log_file s.files)

-- The flags are set back, but not the fill character. The width is for the next text.
unfoldable pub add_separation : ℕ → ℤ → LogState → LogState
unfolding written_to
add_separation what lenght s =
    let stream = record s.logger.log_file { fill = what; width = lenght } in
    written_to (codes "\n") (record s { logger = record s.logger { log_file = stream } })

unfoldable pub set_log_file_path : Bytes → LogState → LogState
set_log_file_path file_path s = record s {
  logger = record s.logger { pending_log_file_path = file_path };
}

abbrev opened : Logger → Stream × Files → Bool × LogState
opened logger (stream, files) =
    (is_open stream, record { logger = record logger { log_file = stream }; files = files })

-- The path that `initLogFile` opens.
abbrev pub target_path : Bytes → Logger → Bytes
target_path file_path logger =
    if not (is_empty logger.pending_log_file_path) then logger.pending_log_file_path else file_path

unfoldable pub closed_first : Stream → Stream
unfolding close
closed_first stream = if is_open stream then close stream else stream

-- `can_open` is what the operating system allows. A file that is closed is not open.
unfoldable pub init_log_file : (Bytes → Bool) → Bytes → LogState → Bool × LogState
unfolding closed_first open_file
init_log_file can_open file_path s =
    let logger = record s.logger { pending_log_file_path = [] } in
    let stream = closed_first s.logger.log_file in
    opened logger (open_file can_open (target_path file_path s.logger) stream s.files)

unfoldable pub set_precision : ℤ → LogState → LogState
set_precision precision s =
    let stream = record s.logger.log_file { precision = precision; fixed = true } in
    record s { logger = record s.logger { log_file = stream } }

abbrev pub throw_if_failed : LogState → Ended × LogState
throw_if_failed s = (if s.logger.log_file.failed then threw else returned, s)

-- What is written stands in the file at once here, so that `flush` has nothing left to do.
unfoldable pub flush_log : LogState → Ended × LogState
flush_log s = if not (is_open s.logger.log_file) then (returned, s) else throw_if_failed s

unfoldable pub add_record_to_log : Bytes → LogState → Ended × LogState
unfolding written_to
add_record_to_log message s = throw_if_failed (written_to (codes "\n") (written_to message s))

unfoldable pub add_partial_record : Bytes → LogState → Ended × LogState
unfolding written_to
add_partial_record message s = throw_if_failed (written_to message s)

-- `operator<<` of a string.
unfoldable pub insert : Bytes → LogState → Ended × LogState
unfolding written_to
insert rhs s = throw_if_failed (written_to rhs s)

-- The destructor.
unfoldable pub destroy : LogState → LogState
unfolding closed_first
destroy s = record s { logger = record s.logger { log_file = closed_first s.logger.log_file } }
