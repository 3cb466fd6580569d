-- ===== src/SqlFileParser/Examples.antt =====
-- Runs of the SQL input file parser of src/cSqlFileParser.cpp, and its theorems at concrete inputs.
use Prim.Native.String.{String}
use pquery.Prelude.{
  ◌≤◌, Bool, true, false, List, [], ◌∷◌, ◌++◌, ◌≡◌, refl, inl, arith, All, codes, Bytes, map,
  get_lines, starts_with, equal, is_alpha, is_alnum, is_digit,
}
use pquery.SqlFileParser.Text.{
  is_blank, trim, starts_with_delimiter, starts_line_comment, starts_block_comment,
  dollar_quote_open_length, is_delimiter_command, compare_at,
}
use pquery.SqlFileParser.Trim.{IsTrimmed}
use pquery.SqlFileParser.Scanner.{
  single_quote, Scanner, start, split_statements, split_lines, push_statement, scan, consume_char,
}
use pquery.SqlFileParser.Invariant.{IsValid, split_lines-IsValid, split_statements-IsTrimmed}
use pquery.SqlFileParser.Size.{total, split_statements-total}
use pquery.SqlFileParser.Dialects.{split_statements-NoDollar}
use pquery.SqlFileParser.Grammar.{not-Special-IsPlain, Lexes, stop, plain, quoted, char, nil}
use pquery.SqlFileParser.Pieces.{reading}
use pquery.SqlFileParser.Lexing.{scan-Lexes}
use pquery.SqlFileParser.Lines.{OneLine, split_lines-scan}
use pquery.SqlFileParser.Scripts.{statement_of, Script, last, next, split_statements-Script}

-- A run on a literal.
split : Bool → String → List Bytes
unfolding split_statements push_statement trim starts_with_delimiter starts_line_comment
    starts_block_comment dollar_quote_open_length is_delimiter_command compare_at scan consume_char
    get_lines starts_with equal is_alpha is_alnum is_digit
split dollar_quoting content = split_statements dollar_quoting (codes content) []

split_custom_delimiter :
    split false "DELIMITER //\nselect 1; select 2//\ndelimiter ;\n  select ';' -- ; no\n;"
    ≡ map codes ("select 1; select 2" ∷ "select ';'" ∷ [])
unfolding split
split_custom_delimiter = refl

split_dollar_quotes :
    split true "do $b$ begin; 'it $$ ; end $b$; /* ; */ # ;\n select $1;"
    ≡ map codes ("do $b$ begin; 'it $$ ; end $b$" ∷ "select $1" ∷ [])
unfolding split
split_dollar_quotes = refl

split_escaped_quote :
    split false "select 'it\\'s; ok';\n\n;\nselect 2"
    ≡ map codes ("select 'it\\'s; ok'" ∷ "select 2" ∷ [])
unfolding split
split_escaped_quote = refl

abbrev padded : Bytes
padded = codes " \tselect 1\r\n"

abbrev in_string : Scanner
in_string = record (start []) { state = single_quote; statement = codes "'" }

start-IsValid_at_nil : IsValid (start [])
start-IsValid_at_nil = record { delimiter_ne = λ e. cc; tag_ne = λ e. cc; queries = tt }

split_lines-IsValid_example :
    IsValid (split_lines true (codes "delimiter $$" ∷ codes "a$$" ∷ []) (start []))
split_lines-IsValid_example =
    split_lines-IsValid true (codes "delimiter $$" ∷ codes "a$$" ∷ []) start-IsValid_at_nil

split_statements-IsTrimmed_example :
    All IsTrimmed (split_statements true (codes "a ; b") (codes "c" ∷ []))
unfolding is_blank
split_statements-IsTrimmed_example =
    split_statements-IsTrimmed true (codes "a ; b") (codes "c" ∷ []) ((refl, refl), tt)

split_statements-total_example : total (split_statements true (codes "a ; b") []) ≤ 6
split_statements-total_example = split_statements-total true (codes "a ; b") []

split_statements-NoDollar_example :
    split_statements true (codes "a';' ;") [] ≡ split_statements false (codes "a';' ;") []
split_statements-NoDollar_example = split_statements-NoDollar (codes "a';' ;") [] (omega arith)

-- `a';'` in front of a delimiter.
abbrev quoted_delimiter : Bytes → Bytes
quoted_delimiter rest = b'a' ∷ b'\'' ∷ (codes ";" ++ b'\'' ∷ b';' ∷ rest)

quoted_delimiter-Lexes :
    (q : Bool) (rest : Bytes)
    → Lexes q (codes ";") (b';' ∷ rest) (quoted_delimiter rest) (codes "a';'")
quoted_delimiter-Lexes q rest = plain (not-Special-IsPlain q b';' [] b'a' _ (omega arith)) (
    quoted b'\'' (codes ";") (b';' ∷ rest) [] (inl refl) (λ p. absurd (cc (p.1)))
      (char (omega arith) (omega arith) nil) stop)

letter-Script : (q : Bool) → Script q (codes ";") (codes "b\n") (statement_of (codes "b\n"))
letter-Script q = last (
    plain (not-Special-IsPlain q b';' [] b'b' _ (omega arith))
      (plain (not-Special-IsPlain q b';' [] b'\n' _ (omega arith)) stop))

scan-Lexes_example :
    scan true 0 (quoted_delimiter (codes "b")) (reading (start []) [])
    ≡ scan true 0 (codes ";b") (reading (start []) (codes "a';'"))
scan-Lexes_example =
    scan-Lexes true (start []) (λ e. cc) {rest = codes ";b"} []
      (quoted_delimiter-Lexes true (codes "b"))

start-OneLine_at_nil : OneLine (start [])
start-OneLine_at_nil = record { delimiter_line = (λ e. omega arith, tt); tag_line = tt }

split_lines-scan_example :
    split_lines false (codes "a /*" ∷ codes "*/;" ∷ []) (start [])
    ≡ scan false 0 (codes "a /*\n*/;\n") (start [])
unfolding is_delimiter_command
split_lines-scan_example =
    split_lines-scan false (codes "a /*" ∷ codes "*/;" ∷ []) (start []) start-OneLine_at_nil
      (refl, (refl, tt))

split_statements-Script_example :
    split_statements false (codes "a';';b") []
    ≡ statement_of (codes "a';'") ++ statement_of (codes "b\n")
unfolding is_delimiter_command get_lines
split_statements-Script_example =
    split_statements-Script false (codes "a';';b") [] (refl, tt)
      (next (codes "a';'") (codes "b\n") _ (quoted_delimiter-Lexes false (codes "b\n"))
        (letter-Script false))
