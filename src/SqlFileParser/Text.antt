-- ===== src/SqlFileParser/Text.antt =====
-- The helpers of src/cSqlFileParser.cpp that only look at the text. A pair `(text, pos)` of the
-- code is given as the rest of the text from `pos` on: the code looks ahead, and never back.
use pquery.Prelude.{
  ℕ, ◌+◌, Bool, true, false, not, ◌&&◌, ◌||◌, [], ◌∷◌, Option, none, some, ltb, leb, ◌==◌,
  if◌then◌else◌, Bytes, codes, length, take, drop, is_empty, equal, starts_with, is_alpha, is_alnum,
}

-- The characters of " \t\r\n".
unfoldable pub is_blank : ℕ → Bool
is_blank c = c == b' ' || c == b'\t' || c == b'\r' || c == b'\n'

-- What stands from `find_first_not_of` on.
unfoldable pub trim_start : Bytes → Bytes
trim_start [] = []
trim_start (c ∷ s) = if is_blank c then trim_start s else c ∷ s

-- What stands up to `find_last_not_of`.
unfoldable pub trim_end : Bytes → Bytes
trim_end [] = []
trim_end (c ∷ s) = let rest = trim_end s in if is_blank c && is_empty rest then [] else c ∷ rest

unfoldable pub trim : Bytes → Bytes
unfolding is_blank trim_start trim_end
trim s = trim_end (trim_start s)

-- `text[pos + 1] == c`, false at the end of the text.
abbrev pub next_is : ℕ → Bytes → Bool
next_is c [] = false
next_is c (d ∷ rest) = d == c

-- What follows a first dash: a second one, and a blank.
unfoldable pub dash_comment : Bytes → Bool
unfolding is_blank
dash_comment [] = false
dash_comment (d ∷ []) = false
dash_comment (d ∷ e ∷ rest) = d == b'-' && is_blank e

unfoldable pub starts_line_comment : ℕ → Bytes → Bool
unfolding dash_comment
starts_line_comment c rest =
    if c == b'#'
    then true
    else if c == b'/' && next_is b'/' rest
    then true
    else if c == b'-'
    then dash_comment rest
    else false

unfoldable pub starts_block_comment : ℕ → Bytes → Bool
starts_block_comment c rest = c == b'/' && next_is b'*' rest

-- `none` for false; `some` has the new delimiter.
unfoldable pub is_delimiter_command : Bytes → Option Bytes
unfolding trim starts_with
is_delimiter_command raw_line =
    let line = trim raw_line in
    let value = trim (drop 10 line) in
    if leb (length line) 10
    then none
    else if not (starts_with (codes "DELIMITER ") line || starts_with (codes "delimiter ") line)
    then none
    else if is_empty value
    then none
    else some value

-- `text.compare(pos, s.size(), s) == 0`.
unfoldable pub compare_at : Bytes → Bytes → Bool
unfolding equal
compare_at text s = equal (take (length s) text) s

unfoldable pub starts_with_delimiter : Bytes → Bytes → Bool
unfolding compare_at
starts_with_delimiter text delimiter =
    if is_empty delimiter
    then false
    else if ltb (length text) (length delimiter)
    then false
    else compare_at text delimiter

-- The loop over the characters of a tag, `i` is the distance from the opening `$`.
unfoldable pub tag_end : ℕ → Bytes → ℕ
unfolding is_alnum
tag_end i [] = 0
tag_end i (c ∷ rest) =
    if is_alnum c || c == b'_' then tag_end (i + 1) rest else if c == b'$' then i + 1 else 0

unfoldable pub tag_start : Bytes → ℕ
unfolding is_alpha tag_end
tag_start [] = 0
tag_start (c ∷ rest) =
    if c == b'$' then 2 else if not (is_alpha c || c == b'_') then 0 else tag_end 2 rest

unfoldable pub dollar_quote_open_length : ℕ → Bytes → ℕ
unfolding tag_start
dollar_quote_open_length c rest = if not (c == b'$') then 0 else tag_start rest
