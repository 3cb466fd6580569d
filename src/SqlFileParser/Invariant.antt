-- ===== src/SqlFileParser/Invariant.antt =====
-- What the scanner of src/cSqlFileParser.cpp keeps true while it reads a file.
use pquery.Prelude.{
  ℕ, zero, suc, Bool, true, List, [], ◌∷◌, ◌≡◌, ◌≢◌, refl, inl, inr, arith, Bytes, All, All-append,
  take, is_empty, ltb, Bool-cases, Option-cases, some, get_lines,
}
use pquery.SqlFileParser.Text.{trim, is_delimiter_command, dollar_quote_open_length}
use pquery.SqlFileParser.Trim.{IsTrimmed, trim-IsTrimmed}
use pquery.SqlFileParser.Cases.{consume_normal_char_cases}
use pquery.SqlFileParser.Scanner.{
  ScanState, normal, dollar_quote, Scanner, push_statement, consume_plain_char, consume_normal_char,
  consume_char, scan, delimiter_command, split_line, split_lines, start, split_statements,
}

-- Neither `delimiter.size() - 1` nor `dollarTag.size() - 1` can wrap around where the code takes it,
-- and the query list holds trimmed statements only.
pub record IsValid (s : Scanner) : Type 0 where
  pub delimiter_ne : s.delimiter ≢ []
  pub tag_ne : s.state ≡ dollar_quote → s.dollar_tag ≢ []
  pub queries : All IsTrimmed s.query_list

push_statement-IsValid : {s : Scanner} → IsValid s → IsValid (push_statement s)
unfolding push_statement
push_statement-IsValid {s} v = record {
  delimiter_ne = v.delimiter_ne;
  tag_ne = v.tag_ne;
  queries = elim (Bool-cases (is_empty (trim s.statement))) [
    | inl h ↦ rw h v.queries
    | inr h ↦ rw h (All-append IsTrimmed s.query_list _ v.queries (trim-IsTrimmed _ h, tt))
  ];
}

take-ne-nil : (n c : ℕ) (rest : Bytes) → ltb 0 n ≡ true → take n (c ∷ rest) ≢ []
take-ne-nil zero c rest h = λ _. cc
take-ne-nil (suc n) c rest h = λ e. cc

consume_normal_char-IsValid :
    (q : Bool) (c : ℕ) (rest : Bytes) {s : Scanner}
    → IsValid s
    → s.state ≡ normal
    → IsValid (consume_normal_char q c rest s).0
consume_normal_char-IsValid q c rest {s} v e =
    consume_normal_char_cases (λ r. IsValid r.0) q c rest s (λ _. push_statement-IsValid v)
      (λ _. record { delimiter_ne = v.delimiter_ne; tag_ne = λ h. cc; queries = v.queries })
      (λ _. record { delimiter_ne = v.delimiter_ne; tag_ne = λ h. cc; queries = v.queries })
      (λ h. record {
        delimiter_ne = v.delimiter_ne;
        tag_ne = λ _. take-ne-nil (dollar_quote_open_length c rest) c rest (ground arith);
        queries = v.queries;
      })
      (unfold consume_plain_char in ground arith)

consume_char-IsValid :
    (q : Bool) (m : ScanState) (c : ℕ) (rest : Bytes) {s : Scanner}
    → IsValid s
    → s.state ≡ m
    → IsValid (consume_char q m c rest s).0
unfolding consume_char
consume_char-IsValid q normal c rest v e = consume_normal_char-IsValid q c rest v e
consume_char-IsValid q _ c [] v e = ground arith
consume_char-IsValid q _ c (d ∷ rest) v e = ground arith

scan-IsValid :
    (q : Bool) (skip : ℕ) (text : Bytes) {s : Scanner} → IsValid s → IsValid (scan q skip text s)
unfolding scan
scan-IsValid q skip [] v = v
scan-IsValid q (suc skip) (c ∷ rest) v = scan-IsValid q skip rest v
scan-IsValid q zero (c ∷ rest) {s} v =
    scan-IsValid q (consume_char q s.state c rest s).1 rest
      (consume_char-IsValid q s.state c rest v refl)

is_delimiter_command-ne-nil :
    (line : Bytes) {value : Bytes} → is_delimiter_command line ≡ some value → value ≢ []
unfolding is_delimiter_command
is_delimiter_command-ne-nil line h = ground arith

delimiter_command-ne-nil :
    (m : ScanState) (line : Bytes) {value : Bytes}
    → delimiter_command m line ≡ some value
    → value ≢ []
unfolding delimiter_command
delimiter_command-ne-nil normal line h = is_delimiter_command-ne-nil line h
delimiter_command-ne-nil _ line h = cc

split_line-IsValid :
    (q : Bool) (line : Bytes) {s : Scanner} → IsValid s → IsValid (split_line q line s)
unfolding split_line
split_line-IsValid q line {s} v = elim (Option-cases (delimiter_command s.state line)) [
  | inl e ↦ rw (e, split_line) (scan-IsValid q 0 _ v)
  | inr (d, e) ↦
      rw (e, split_line)
        (record {
          delimiter_ne = delimiter_command-ne-nil s.state line e;
          tag_ne = v.tag_ne;
          queries = v.queries;
        })
]

-- After any lines the scanner is valid, if it was before: the delimiter is not empty, a dollar
-- quote is open only with a tag that is not empty, so the subtractions of 1 from their sizes never
-- wrap around, and the statements in the list are trimmed.
pub split_lines-IsValid :
    (q : Bool) (lines : List Bytes) {s : Scanner} → IsValid s → IsValid (split_lines q lines s)
unfolding split_lines
split_lines-IsValid q [] v = v
split_lines-IsValid q (line ∷ lines) v = split_lines-IsValid q lines (split_line-IsValid q line v)

start-IsValid : (queries : List Bytes) → All IsTrimmed queries → IsValid (start queries)
start-IsValid queries h = record { delimiter_ne = λ e. cc; tag_ne = λ e. cc; queries = h }

-- If every statement in the query list is not empty and has no blank at either end, so is every
-- one in the list after a file is added to it.
pub split_statements-IsTrimmed :
    (q : Bool) (content : Bytes) (queries : List Bytes)
    → All IsTrimmed queries
    → All IsTrimmed (split_statements q content queries)
unfolding split_statements
split_statements-IsTrimmed q content queries h =
    (push_statement-IsValid
      (split_lines-IsValid q (get_lines content) (start-IsValid queries h))).queries
