-- ===== src/SqlFileParser/Size.antt =====
-- How much of a file ends up in the query list of src/cSqlFileParser.cpp.
use pquery.Prelude.{
  ℕ, zero, suc, ◌+◌, ◌≤◌, Bool, List, [], ◌∷◌, ◌++◌, ◌≡◌, inl, inr, arith, Bytes, length,
  length-append, take, is_empty, Bool-cases, Option-cases, get_lines, get_lines_from,
}
use pquery.SqlFileParser.Text.{trim, dollar_quote_open_length}
use pquery.SqlFileParser.Trim.{length-trim-le}
use pquery.SqlFileParser.Bounds.{consume_char_bounds, length-take-le_count}
use pquery.SqlFileParser.Cases.{consume_normal_char_cases}
use pquery.SqlFileParser.Scanner.{
  ScanState, normal, dollar_quote, Scanner, push_statement, push_back, consume_plain_char,
  consume_normal_char, consume_char, scan, delimiter_command, split_line, split_lines, start,
  split_statements,
}

-- The bytes of all strings of a list together.
abbrev pub total : List Bytes → ℕ
total [] = 0
total (s ∷ l) = length s + total l

-- The bytes that the scanner holds.
abbrev held : Scanner → ℕ
held s = total s.query_list + length s.statement

total-append : (l m : List Bytes) → total (l ++ m) ≡ total l + total m
total-append [] m = omega arith
total-append (s ∷ l) m = omega (arith, total-append l m)

push_statement-held : (s : Scanner) → held (push_statement s) ≤ held s
unfolding push_statement
push_statement-held s = elim (Bool-cases (is_empty (trim s.statement))) [
  | inl h ↦ rw h (omega arith)
  | inr h ↦
      rw h (
        omega
          (arith, total-append s.query_list (trim s.statement ∷ []), length-trim-le s.statement))
]

push_back-held : (s : Scanner) (c : ℕ) (m : ScanState) → held (push_back s c m) ≤ held s + 1
push_back-held s c m = omega (arith, length-append s.statement (c ∷ []))

consume_plain_char-held : (c : ℕ) (s : Scanner) → held (consume_plain_char c s) ≤ held s + 1
unfolding consume_plain_char
consume_plain_char-held c s = ground (arith, length-append s.statement (c ∷ []))

consume_normal_char-held :
    (q : Bool) (c : ℕ) (rest : Bytes) (s : Scanner)
    → let r = consume_normal_char q c rest s in held r.0 ≤ held s + 1 + r.1
consume_normal_char-held q c rest s =
    consume_normal_char_cases (λ r. held r.0 ≤ held s + 1 + r.1) q c rest s
      (λ _. omega (arith, push_statement-held s)) (λ _. omega arith) (λ _. omega arith)
      (λ _. omega (
        arith,
        length-append s.statement (take (dollar_quote_open_length c rest) (c ∷ rest)),
        length-take-le_count (dollar_quote_open_length c rest) (c ∷ rest),
      ))
      (omega (arith, consume_plain_char-held c s))

consume_char-held :
    (q : Bool) (m : ScanState) (c : ℕ) (rest : Bytes) (s : Scanner)
    → let r = consume_char q m c rest s in held r.0 ≤ held s + 1 + r.1
unfolding consume_char
consume_char-held q normal c rest s = consume_normal_char-held q c rest s
consume_char-held q dollar_quote c rest s =
    ground (arith, length-append s.statement s.dollar_tag, length-append s.statement (c ∷ []))
consume_char-held q _ c [] s = ground (arith, length-append s.statement (c ∷ []))
consume_char-held q _ c (d ∷ rest) s =
    ground (arith, length-append s.statement (c ∷ []), length-append s.statement (c ∷ d ∷ []))

scan-held :
    (q : Bool) (skip : ℕ) (text : Bytes) (s : Scanner)
    → skip ≤ length text
    → held (scan q skip text s) + skip ≤ held s + length text
unfolding scan
scan-held q zero [] s h = omega arith
scan-held q (suc skip) [] s h = absurd (omega arith)
scan-held q (suc skip) (c ∷ rest) s h = omega (arith, scan-held q skip rest s (omega arith))
scan-held q zero (c ∷ rest) s h =
    let r = consume_char q s.state c rest s in
    omega (
      arith,
      scan-held q r.1 rest r.0 (consume_char_bounds q s.state c rest s),
      consume_char-held q s.state c rest s,
    )

split_line-held :
    (q : Bool) (line : Bytes) (s : Scanner) → held (split_line q line s) ≤ held s + length line + 1
unfolding split_line
split_line-held q line s = elim (Option-cases (delimiter_command s.state line)) [
  | inl e ↦
      rw (e, split_line)
        (omega (
          arith,
          scan-held q 0 (line ++ b'\n' ∷ []) s (omega arith),
          length-append line (b'\n' ∷ []),
        ))
  | inr (d, e) ↦ rw (e, split_line) (omega arith)
]

-- The bytes of the lines, each with its newline.
abbrev lines_size : List Bytes → ℕ
lines_size [] = 0
lines_size (line ∷ lines) = length line + 1 + lines_size lines

split_lines-held :
    (q : Bool) (lines : List Bytes) (s : Scanner)
    → held (split_lines q lines s) ≤ held s + lines_size lines
unfolding split_lines
split_lines-held q [] s = omega arith
split_lines-held q (line ∷ lines) s =
    omega (arith, split_lines-held q lines (split_line q line s), split_line-held q line s)

get_lines_from-size :
    (line content : Bytes)
    → lines_size (get_lines_from line content) ≤ length line + length content + 1
unfolding get_lines_from
get_lines_from-size [] [] = omega arith
get_lines_from-size (c ∷ line) [] = omega arith
get_lines_from-size line (c ∷ rest) = ground (
  arith,
  get_lines_from-size [] rest,
  get_lines_from-size (line ++ c ∷ []) rest,
  length-append line (c ∷ []),
)

-- A file adds to the total size of the query list at most one byte more than the file has.
pub split_statements-total :
    (q : Bool) (content : Bytes) (queries : List Bytes)
    → total (split_statements q content queries) ≤ total queries + length content + 1
unfolding split_statements get_lines
split_statements-total q content queries = omega (
  arith,
  push_statement-held (split_lines q (get_lines content) (start queries)),
  split_lines-held q (get_lines content) (start queries),
  get_lines_from-size [] content,
)
