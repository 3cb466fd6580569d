-- ===== src/SqlFileParser/Dialects.antt =====
-- The constructor's flag `dollarQuoting` of src/cSqlFileParser.cpp matters only for texts with a `$`.
use pquery.Prelude.{
  ℕ, zero, suc, true, false, List, [], ◌∷◌, ◌++◌, ◌≡◌, ◌≢◌, refl, ap, inl, inr, arith, Bytes, All,
  All-append, ◌==◌, Bool-cases, Option-cases, get_lines, get_lines_from,
}
use pquery.SqlFileParser.Scanner.{
  ScanState, normal, Scanner, push_statement, consume_normal_char, consume_char, scan,
  delimiter_command, split_line, split_lines, start, split_statements,
}

abbrev NoDollar : Bytes → Type 0
NoDollar = All (λ c. c ≢ b'$')

consume_char-NoDollar :
    (m : ScanState) (c : ℕ) (rest : Bytes) (s : Scanner)
    → c ≢ b'$'
    → consume_char true m c rest s ≡ consume_char false m c rest s
unfolding consume_char consume_normal_char
consume_char-NoDollar normal c rest s h = let e : (c == b'$') ≡ false = ground arith in rw e
consume_char-NoDollar _ c rest s h = refl

scan-NoDollar :
    (skip : ℕ) (text : Bytes) (s : Scanner)
    → NoDollar text
    → scan true skip text s ≡ scan false skip text s
unfolding scan
scan-NoDollar zero [] s h = refl
scan-NoDollar (suc skip) [] s h = refl
scan-NoDollar (suc skip) (c ∷ rest) s h = scan-NoDollar skip rest s h.1
scan-NoDollar zero (c ∷ rest) s h =
    let r = consume_char false s.state c rest s in
    rw (consume_char-NoDollar s.state c rest s h.0) (scan-NoDollar r.1 rest r.0 h.1)

split_line-NoDollar :
    (line : Bytes) (s : Scanner) → NoDollar line → split_line true line s ≡ split_line false line s
unfolding split_line
split_line-NoDollar line s h = elim (Option-cases (delimiter_command s.state line)) [
  | inl e ↦
      rw (e, split_line)
        (scan-NoDollar 0 (line ++ b'\n' ∷ []) s (All-append _ line _ h (λ e. omega arith, tt)))
  | inr (d, e) ↦ rw (e, split_line)
]

split_lines-NoDollar :
    (lines : List Bytes) (s : Scanner)
    → All NoDollar lines
    → split_lines true lines s ≡ split_lines false lines s
unfolding split_lines
split_lines-NoDollar [] s h = refl
split_lines-NoDollar (line ∷ lines) s h =
    rw (split_line-NoDollar line s h.0) (split_lines-NoDollar lines (split_line false line s) h.1)

get_lines_from-NoDollar :
    (line content : Bytes)
    → NoDollar line
    → NoDollar content
    → All NoDollar (get_lines_from line content)
unfolding get_lines_from
get_lines_from-NoDollar [] [] hl h = tt
get_lines_from-NoDollar (c ∷ line) [] hl h = (hl, tt)
get_lines_from-NoDollar line (c ∷ rest) hl h = elim (Bool-cases (c == b'\n')) [
  | inl e ↦ rw e (hl, get_lines_from-NoDollar [] rest tt h.1)
  | inr e ↦
      rw e (get_lines_from-NoDollar (line ++ c ∷ []) rest (All-append _ line _ hl (h.0, tt)) h.1)
]

-- On a file with no `$` the parser for PostgreSQL and the one for MySQL give the same statements.
pub split_statements-NoDollar :
    (content : Bytes) (queries : List Bytes)
    → NoDollar content
    → split_statements true content queries ≡ split_statements false content queries
unfolding split_statements get_lines
split_statements-NoDollar content queries h =
    ap (λ s. (push_statement s).query_list)
      (split_lines-NoDollar (get_lines content) (start queries)
        (get_lines_from-NoDollar [] content tt h))
