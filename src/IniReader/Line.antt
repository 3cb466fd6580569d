-- ===== src/IniReader/Line.antt =====
-- The functions of src/cIniReader.cpp that take a line apart. A position in a line is given as the
-- rest of the line from there on.
use pquery.Prelude.{
  ℕ, zero, suc, ◌-◌, Bool, true, false, not, ◌&&◌, ◌||◌, [], ◌∷◌, Option, none, some, ◌==◌,
  if◌then◌else◌, Bytes, length, is_empty, between, drop_while, is_space,
}

unfoldable pub skip_ws : Bytes → Bytes
unfolding drop_while is_space
skip_ws = drop_while is_space

unfoldable pub is_blank_line : Bytes → Bool
unfolding skip_ws
is_blank_line line = is_empty (skip_ws line)

-- `line[i + 1] == c`, false at the end of the line.
abbrev pub head_is : ℕ → Bytes → Bool
head_is c [] = false
head_is c (d ∷ s) = d == c

abbrev pub comment_at : Bytes → Bool
comment_at [] = false
comment_at (c ∷ s) = if c == b';' || c == b'#' then true else c == b'-' && head_is b'-' s

unfoldable pub is_comment : Bytes → Bool
unfolding skip_ws
is_comment line = comment_at (skip_ws line)

abbrev pub put_before : ℕ → Option (Bytes × Bytes) → Option (Bytes × Bytes)
put_before d none = none
put_before d (some (a, b)) = some (d ∷ a, b)

-- `find(c)`: what stands before the first `c`, and what stands behind it.
unfoldable pub cut_at : ℕ → Bytes → Option (Bytes × Bytes)
cut_at c [] = none
cut_at c (d ∷ s) = if d == c then some ([], s) else put_before d (cut_at c s)

-- The section's name is not empty, and nothing stands behind the bracket.
abbrev pub section_name : Option (Bytes × Bytes) → Option Bytes
section_name none = none
section_name (some ([], behind)) = none
section_name (some (c ∷ name, [])) = some (c ∷ name)
section_name (some (c ∷ name, d ∷ behind)) = none

abbrev pub section_at : Bytes → Option Bytes
section_at [] = none
section_at (c ∷ s) = if not (c == b'[') then none else section_name (cut_at b']' s)

unfoldable pub try_parse_section : Bytes → Option Bytes
unfolding skip_ws cut_at
try_parse_section line = section_at (skip_ws line)

abbrev pub is_key_char : ℕ → Bool
is_key_char c = not (c == b' ') && not (c == b'\t') && not (c == b'=')

-- The loop over the characters of the key behind the first one.
unfoldable pub key_end : Bytes → Bytes
unfolding drop_while
key_end = drop_while is_key_char

abbrev pub is_word_char : ℕ → Bool
is_word_char c = not (is_space c)

-- The loop to the end of a word.
unfoldable pub word_end : Bytes → Bytes
unfolding drop_while is_space
word_end = drop_while is_word_char

-- The loop over the words of the value behind the first: `from` is the line from the value on, and
-- `ve` what stands behind the last word.
unfoldable pub value_loop : ℕ → Bytes → Bytes → Option Bytes
unfolding skip_ws word_end
value_loop zero from ve = some (between from ve)
value_loop (suc fuel) from [] = some (between from [])
value_loop (suc fuel) from (c ∷ s) =
    let next = skip_ws (c ∷ s) in
    let more = value_loop fuel from (word_end next) in
    if is_empty next
    then some (between from (c ∷ s))
    else if not (length (c ∷ s) - length next == 1)
    then none
    else more

-- The value from its first character on, if there is one.
abbrev pub value_at : Bytes → Option Bytes
value_at [] = none
value_at (c ∷ s) = value_loop (length (c ∷ s)) (c ∷ s) (word_end (c ∷ s))

-- What follows the key: `=` and a value.
abbrev pub assigned : Bytes → Option Bytes
assigned [] = none
assigned (c ∷ s) = if not (c == b'=') then none else value_at (skip_ws s)

abbrev pub with_key : Bytes → Option Bytes → Option (Bytes × Bytes)
with_key key none = none
with_key key (some value) = some (key, value)

abbrev pub key_value_at : Bytes → Option (Bytes × Bytes)
key_value_at [] = none
key_value_at (c ∷ s) = with_key (between (c ∷ s) (key_end s)) (assigned (skip_ws (key_end s)))

unfoldable pub try_parse_key_value : Bytes → Option (Bytes × Bytes)
unfolding skip_ws key_end word_end value_loop
try_parse_key_value line = key_value_at (skip_ws line)
