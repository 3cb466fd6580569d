-- ===== src/SqlFileParser/Scripts.antt =====
-- `splitStatements` of src/cSqlFileParser.cpp against the grammar of whole scripts.
use pquery.Prelude.{
  ℕ, Bool, true, List, [], ◌∷◌, ◌++◌, ◌≡◌, ◌≢◌, refl, sym, ap, ◌∙◌, inl, inr, arith, Bytes, All,
  ◌==◌, ==_iff, ◌-◌, codes, length, Bool-cases, append_assoc, append-nil, is_empty, if◌then◌else◌,
  get_lines, get_lines_from,
}
use pquery.SqlFileParser.Text.{trim, starts_with_delimiter}
use pquery.SqlFileParser.Grammar.{Lexes}
use pquery.SqlFileParser.Decides.{starts_with_delimiter_iff}
use pquery.SqlFileParser.Pieces.{reading, scan_step, scan_skip}
use pquery.SqlFileParser.Lexing.{scan-Lexes}
use pquery.SqlFileParser.Lines.{unlines, NoCommand, OneLine, split_lines-scan}
use pquery.SqlFileParser.Scanner.{
  Scanner, push_statement, consume_normal_char, consume_char, scan, start, split_statements,
}

-- What a text between two delimiters is in the query list: a blank one leaves no trace.
abbrev pub statement_of : Bytes → List Bytes
statement_of text = if is_empty (trim text) then [] else trim text ∷ []

-- `Script q d input statements`: the whole of `input` is made of pieces and of delimiters `d`, and
-- `statements` is what it says.
pub data Script (q : Bool) (d : Bytes) : Bytes → List Bytes → Type 0 where
  last : {input text : Bytes} → Lexes q d [] input text → Script q d input (statement_of text)
  next :
      {input : Bytes} (text rest : Bytes) (statements : List Bytes)
      → Lexes q d (d ++ rest) input text
      → Script q d rest statements
      → Script q d input (statement_of text ++ statements)

abbrev add_statement : Scanner → Bytes → Scanner
add_statement s text = record s { query_list = s.query_list ++ statement_of text }

push_statement-reading :
    (s : Scanner) (text : Bytes)
    → push_statement (reading s text) ≡ reading (add_statement s text) []
unfolding push_statement
push_statement-reading s text = elim (Bool-cases (is_empty (trim text))) [
  | inl e ↦
      rw e (ap (λ l. reading (record s { query_list = l }) []) (sym (append-nil s.query_list)))
  | inr e ↦ rw e
]

cons-ne-nil : (c : ℕ) (d : Bytes) → c ∷ d ≢ []
cons-ne-nil c d = λ h. cc

scan-delimiter :
    (q : Bool) (s : Scanner) (c : ℕ) (d rest text : Bytes)
    → s.delimiter ≡ c ∷ d
    → scan q 0 ((c ∷ d) ++ rest) (reading s text)
      ≡ scan q 0 rest (reading (add_statement s text) [])
unfolding consume_char consume_normal_char
scan-delimiter q s c d rest text e =
    let found : starts_with_delimiter (c ∷ (d ++ rest)) (c ∷ d) ≡ true =
      (starts_with_delimiter_iff (c ∷ (d ++ rest)) (c ∷ d) (cons-ne-nil c d)).1 (rest, refl) in
    let t : starts_with_delimiter (c ∷ (d ++ rest)) s.delimiter ≡ true = rw e found in
    let k : length s.delimiter - 1 ≡ length d = omega (arith, ap length e) in
    scan_step q c (d ++ rest) (reading s text) (reading (add_statement s text) []) (length d)
      (rw t (λ i. (push_statement-reading s text i, k i)))
    ∙ scan_skip q d rest (reading (add_statement s text) [])

-- The scanner finds the statements that the grammar finds.
scan-Script :
    (q : Bool) (c : ℕ) (d : Bytes) (s : Scanner) {input : Bytes} {statements : List Bytes}
    → s.delimiter ≡ c ∷ d
    → Script q (c ∷ d) input statements
    → (push_statement (scan q 0 input (reading s []))).query_list ≡ s.query_list ++ statements
unfolding scan
scan-Script q c d s e (last {input} {text} t) =
    let ne : s.delimiter ≢ [] = rw e (cons-ne-nil c d) in
    ap (λ r. (push_statement r).query_list) (scan-Lexes q s ne {rest = []} [] (rw e t))
    ∙ ap (λ (r : Scanner). r.query_list) (push_statement-reading s text)
scan-Script q c d s e (next {input} text rest statements t more) =
    let ne : s.delimiter ≢ [] = rw e (cons-ne-nil c d) in
    ap (λ r. (push_statement r).query_list)
      (scan-Lexes q s ne {rest = (c ∷ d) ++ rest} [] (rw e t) ∙ scan-delimiter q s c d rest text e)
    ∙ scan-Script q c d (add_statement s text) e more
    ∙ append_assoc s.query_list (statement_of text) statements

-- The text with a newline at the end of its last line.
abbrev pub complete : Bytes → Bytes
complete [] = []
complete (c ∷ []) = if c == b'\n' then c ∷ [] else c ∷ b'\n' ∷ []
complete (c ∷ d ∷ text) = c ∷ complete (d ∷ text)

get_lines_from_step :
    (line : Bytes) (c : ℕ) (rest : Bytes)
    → get_lines_from line (c ∷ rest)
      ≡ (if c == b'\n' then line ∷ get_lines_from [] rest else get_lines_from (line ++ c ∷ []) rest)
unfolding get_lines_from
get_lines_from_step line c rest = refl

get_lines_from_end :
    (line : Bytes) (c : ℕ) → get_lines_from (line ++ c ∷ []) [] ≡ (line ++ c ∷ []) ∷ []
unfolding get_lines_from
get_lines_from_end [] c = refl
get_lines_from_end (d ∷ line) c = refl

get_lines_from_nil : get_lines_from [] [] ≡ []
unfolding get_lines_from
get_lines_from_nil = refl

unlines-get_lines_from :
    (line : Bytes) (c : ℕ) (content : Bytes)
    → unlines (get_lines_from line (c ∷ content)) ≡ line ++ complete (c ∷ content)
unlines-get_lines_from line c [] =
    rw (get_lines_from_step line c []) (elim (Bool-cases (c == b'\n')) [
      | inl e ↦
          let newline : c ≡ b'\n' = (==_iff c b'\n').0 e in
          rw (e, get_lines_from_nil) (ap (λ x. line ++ x ∷ []) (sym newline))
      | inr e ↦ rw (e, get_lines_from_end line c) (append_assoc line (c ∷ []) (b'\n' ∷ []))
    ])
unlines-get_lines_from line c (d ∷ content) =
    rw (get_lines_from_step line c (d ∷ content)) (elim (Bool-cases (c == b'\n')) [
      | inl e ↦
          let newline : c ≡ b'\n' = (==_iff c b'\n').0 e in
          rw (e, newline) (ap (λ x. line ++ b'\n' ∷ x) (unlines-get_lines_from [] d content))
      | inr e ↦ rw e (
          unlines-get_lines_from (line ++ c ∷ []) d content
          ∙ append_assoc line (c ∷ []) (complete (d ∷ content)))
    ])

unlines-get_lines : (content : Bytes) → unlines (get_lines content) ≡ complete content
unfolding get_lines
unlines-get_lines [] = ap unlines get_lines_from_nil
unlines-get_lines (c ∷ content) = unlines-get_lines_from [] c content

start-OneLine : (queries : List Bytes) → OneLine (start queries)
start-OneLine queries = record { delimiter_line = (λ e. omega arith, tt); tag_line = tt }

-- A file with no delimiter command, whose text is a script of the grammar with delimiter ";", adds
-- exactly the statements of that script to the query list, in their order.
pub split_statements-Script :
    (q : Bool) (content : Bytes) (queries : List Bytes) {statements : List Bytes}
    → All NoCommand (get_lines content)
    → Script q (codes ";") (complete content) statements
    → split_statements q content queries ≡ queries ++ statements
unfolding split_statements
split_statements-Script q content queries h script =
    ap (λ s. (push_statement s).query_list)
      (split_lines-scan q (get_lines content) (start queries) (start-OneLine queries) h
        ∙ ap (λ text. scan q 0 text (start queries)) (unlines-get_lines content))
    ∙ scan-Script q b';' [] (start queries) refl script
