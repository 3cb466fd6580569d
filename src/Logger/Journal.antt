-- ===== src/Logger/Journal.antt =====
-- What the log files of src/cLogger.cpp are for: an abstract log, with the text of its file.
use pquery.Prelude.{
  ℕ, ℤ, pos, Bool, List, [], ◌∷◌, ◌++◌, ◌≡◌, Option, none, some, if◌then◌else◌, Bytes, codes,
  is_empty, lookup,
}
use pquery.Logger.Stream.{Files, padded, content_of}
use pquery.Logger.Operations.{LogState, Ended, returned, threw}
use pquery.Logger.Calls.{
  IsReady, Call, separation, path_set, initialised, precision_set, flushed, record_added,
  partial_added, inserted,
}

-- The file that is written to with its text, where there is one, the path for the next file, and how
-- the next text is padded.
pub record Journal : Type 0 where
  pub target : Option (Bytes × Bytes)
  pub pending : Bytes
  pub fill : ℕ
  pub width : ℤ

abbrev pub written_on : Bytes → Option (Bytes × Bytes) → Option (Bytes × Bytes)
written_on text none = none
written_on text (some (path, content)) = some (path, content ++ text)

abbrev pub refused_on : Option (Bytes × Bytes) → Ended
refused_on none = threw
refused_on (some file) = returned

-- The width is used up, where there is a file.
abbrev pub width_left : Option (Bytes × Bytes) → ℤ → ℤ
width_left none width = width
width_left (some file) width = pos 0

unfoldable pub add : Bytes → Journal → Journal
unfolding padded
add text j = record j {
  target = written_on (padded j.width j.fill text) j.target;
  width = width_left j.target j.width;
}

abbrev pub new_target : (Bytes → Bool) → Bytes → Option (Bytes × Bytes)
new_target can_open path = if can_open path then some (path, []) else none

-- What a call does to it: a record is written whole, or an exception is thrown.
unfoldable pub note : (Bytes → Bool) → Call → Journal → Ended × Journal
unfolding add
note can_open (separation what lenght) j =
    (returned, add (codes "\n") (record j { fill = what; width = lenght }))
note can_open (path_set path) j = (returned, record j { pending = path })
note can_open (initialised path) j = (
  returned,
  record j {
    target = new_target can_open (if is_empty j.pending then path else j.pending);
    pending = [];
  },
)
note can_open (precision_set n) j = (returned, j)
note can_open flushed j = (returned, j)
note can_open (record_added message) j = (refused_on j.target, add (codes "\n") (add message j))
note can_open (partial_added message) j = (refused_on j.target, add message j)
note can_open (inserted rhs) j = (refused_on j.target, add rhs j)

unfoldable pub note_all : (Bytes → Bool) → List Call → Journal → List Ended × Journal
unfolding note
note_all can_open [] j = ([], j)
note_all can_open (c ∷ calls) j =
    let (e, j) = note can_open c j in let (es, j) = note_all can_open calls j in (e ∷ es, j)

abbrev pub target_of : Option Bytes → Files → Option (Bytes × Bytes)
target_of none files = none
target_of (some path) files = some (path, content_of (lookup path files))

-- The journal that the object with its disk stands for.
abbrev pub journal : LogState → Journal
journal s = record {
  target = target_of s.logger.log_file.path s.files;
  pending = s.logger.pending_log_file_path;
  fill = s.logger.log_file.fill;
  width = s.logger.log_file.width;
}

-- The state is ready, and stands for the journal.
abbrev pub StandsFor : LogState → Journal → Type 0
StandsFor s j = IsReady s.logger.log_file × (journal s ≡ j)

abbrev pub Agrees : Ended × LogState → Ended × Journal → Type 0
Agrees x y = (x.0 ≡ y.0) × StandsFor x.1 y.1
