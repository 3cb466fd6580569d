-- ===== src/Logger/Stream.antt =====
-- `std::ofstream` as src/cLogger.cpp uses it. No other stream writes to its file meanwhile, and the
-- disk does not fill up: what is written stands behind what the stream has written before.
use pquery.Prelude.{
  ℕ, ◌-◌, zero, suc, Bool, true, false, not, List, [], ◌∷◌, ◌++◌, Option, none, some, if◌then◌else◌,
  Bytes, is_empty, length, lookup, assign, ℤ, pos, pos_part,
}

-- The contents of the files by their paths.
abbrev pub Files : Type 0
Files = List (Bytes × Bytes)

-- `path` is that of the file that the stream is open on; `failed` is `fail()`. `width` is what `setw`
-- has set for the next text.
pub record Stream : Type 0 where
  pub path : Option Bytes
  pub failed : Bool
  pub fill : ℕ
  pub width : ℤ
  pub precision : ℤ
  pub fixed : Bool

abbrev pub is_open : Stream → Bool
is_open stream = elim stream.path [ none ↦ false | some path ↦ true ]

abbrev pub content_of : Option Bytes → Bytes
content_of none = []
content_of (some content) = content

unfoldable pub append : Bytes → Bytes → Files → Files
unfolding lookup assign
append path text files = assign path (content_of (lookup path files) ++ text) files

unfoldable pub put_in : Option Bytes → Bytes → Stream → Files → Stream × Files
unfolding append
put_in none text stream files = (record stream { failed = not (is_empty text) }, files)
put_in (some path) text stream files = (stream, append path text files)

unfoldable pub replicate : ℕ → ℕ → Bytes
replicate zero c = []
replicate (suc n) c = c ∷ replicate n c

-- What `setw` makes of a string: the fill character stands in front.
unfoldable pub padded : ℤ → ℕ → Bytes → Bytes
unfolding replicate
padded width fill text = replicate (pos_part width - length text) fill ++ text

-- `<<` of a string: behind a failure nothing happens, not even to the width. A text that cannot be
-- written is a failure.
unfoldable pub put : Bytes → Stream → Files → Stream × Files
unfolding put_in padded
put text stream files =
    if stream.failed
    then (stream, files)
    else put_in stream.path (padded stream.width stream.fill text) (record stream { width = pos 0 })
        files

unfoldable pub close : Stream → Stream
close stream = record stream { path = none }

-- `open` of a stream that is closed, with `std::ios::trunc`.
unfoldable pub open_file : (Bytes → Bool) → Bytes → Stream → Files → Stream × Files
unfolding assign
open_file can_open path stream files =
    if can_open path
    then (record stream { path = some path; failed = false }, assign path [] files)
    else (record stream { failed = true }, files)
