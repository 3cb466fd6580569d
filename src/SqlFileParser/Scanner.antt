-- ===== src/SqlFileParser/Scanner.antt =====
-- The state machine of `splitStatements` in src/cSqlFileParser.cpp, and `loadQueriesFromFile`.
-- Each `consume…Char` gets the character at `pos` and the text behind it, and returns the new state
-- with the number of characters by which it moves `pos` on.
use pquery.Prelude.{
  ℕ, zero, suc, ◌-◌, Bool, true, false, ◌&&◌, ◌||◌, List, [], ◌∷◌, ◌++◌, Option, none, some, ltb,
  ◌==◌, if◌then◌else◌, Bytes, codes, length, take, is_empty, get_lines,
}
use pquery.SqlFileParser.Text.{
  trim, next_is, starts_line_comment, starts_block_comment, is_delimiter_command, compare_at,
  starts_with_delimiter, dollar_quote_open_length,
}

pub data ScanState : Type 0 where
  normal single_quote double_quote backtick line_comment block_comment dollar_quote : ScanState

-- The local variables of `splitStatements`, and the query list that it fills.
pub record Scanner : Type 0 where
  pub state : ScanState
  pub statement : Bytes
  pub query_list : List Bytes
  pub delimiter : Bytes
  pub dollar_tag : Bytes

unfoldable pub push_statement : Scanner → Scanner
push_statement s =
    let trimmed = trim s.statement in
    record s {
      statement = [];
      query_list = if is_empty trimmed then s.query_list else s.query_list ++ trimmed ∷ [];
    }

-- `statement.push_back(c)`, in the state `m` from then on.
abbrev pub push_back : Scanner → ℕ → ScanState → Scanner
push_back s c m = record s { statement = s.statement ++ c ∷ []; state = m }

abbrev pub open_dollar_quote : Scanner → Bytes → Scanner
open_dollar_quote s tag = record s {
  state = dollar_quote;
  statement = s.statement ++ tag;
  dollar_tag = tag;
}

unfoldable pub consume_plain_char : ℕ → Scanner → Scanner
consume_plain_char c s =
    if c == b'\''
    then push_back s c single_quote
    else if c == b'"'
    then push_back s c double_quote
    else if c == b'`'
    then push_back s c backtick
    else push_back s c s.state

unfoldable pub consume_normal_char : Bool → ℕ → Bytes → Scanner → Scanner × ℕ
unfolding push_statement consume_plain_char
consume_normal_char dollar_quoting c rest s =
    let len = dollar_quote_open_length c rest in
    if starts_with_delimiter (c ∷ rest) s.delimiter
    then (push_statement s, length s.delimiter - 1)
    else if starts_line_comment c rest
    then (record s { state = line_comment }, if c == b'/' || c == b'-' then 1 else 0)
    else if starts_block_comment c rest
    then (record s { state = block_comment }, 1)
    else if dollar_quoting && c == b'$' && ltb 0 len
    then (open_dollar_quote s (take len (c ∷ rest)), len - 1)
    else (consume_plain_char c s, 0)

-- A backslash takes the next character with it.
unfoldable pub consume_quoted_char : ℕ → Bytes → ℕ → Scanner → Scanner × ℕ
consume_quoted_char c [] quote s = (push_back s c (if c == quote then normal else s.state), 0)
consume_quoted_char c (d ∷ rest) quote s =
    if c == b'\\'
    then (record s { statement = s.statement ++ c ∷ d ∷ [] }, 1)
    else (push_back s c (if c == quote then normal else s.state), 0)

unfoldable pub consume_backtick_char : ℕ → Scanner → Scanner
consume_backtick_char c s = push_back s c (if c == b'`' then normal else s.state)

unfoldable pub consume_line_comment_char : ℕ → Scanner → Scanner
consume_line_comment_char c s = if c == b'\n' then record s { state = normal } else s

unfoldable pub consume_block_comment_char : ℕ → Bytes → Scanner → Scanner × ℕ
consume_block_comment_char c rest s =
    if c == b'*' && next_is b'/' rest then (record s { state = normal }, 1) else (s, 0)

unfoldable pub consume_dollar_quote_char : ℕ → Bytes → Scanner → Scanner × ℕ
consume_dollar_quote_char c rest s =
    if c == b'$' && compare_at (c ∷ rest) s.dollar_tag
    then (
      record s { statement = s.statement ++ s.dollar_tag; dollar_tag = []; state = normal },
      length s.dollar_tag - 1,
    )
    else (push_back s c s.state, 0)

-- The `switch` over the state.
unfoldable pub consume_char : Bool → ScanState → ℕ → Bytes → Scanner → Scanner × ℕ
unfolding consume_normal_char consume_quoted_char consume_backtick_char consume_line_comment_char
    consume_block_comment_char consume_dollar_quote_char
consume_char dollar_quoting normal c rest s = consume_normal_char dollar_quoting c rest s
consume_char dollar_quoting single_quote c rest s = consume_quoted_char c rest b'\'' s
consume_char dollar_quoting double_quote c rest s = consume_quoted_char c rest b'"' s
consume_char dollar_quoting backtick c rest s = (consume_backtick_char c s, 0)
consume_char dollar_quoting line_comment c rest s = (consume_line_comment_char c s, 0)
consume_char dollar_quoting block_comment c rest s = consume_block_comment_char c rest s
consume_char dollar_quoting dollar_quote c rest s = consume_dollar_quote_char c rest s

-- The loop over one line: `skip` counts the characters that `pos` has still to pass.
unfoldable pub scan : Bool → ℕ → Bytes → Scanner → Scanner
scan dollar_quoting skip [] s = s
scan dollar_quoting (suc skip) (c ∷ rest) s = scan dollar_quoting skip rest s
scan dollar_quoting zero (c ∷ rest) s =
    let (s', skip) = consume_char dollar_quoting s.state c rest s in
    scan dollar_quoting skip rest s'

-- `state == ScanState::Normal && isDelimiterCommand(line, newDelimiter)`.
unfoldable pub delimiter_command : ScanState → Bytes → Option Bytes
delimiter_command normal line = is_delimiter_command line
delimiter_command _ line = none

-- The body of the loop over the lines.
unfoldable pub split_line : Bool → Bytes → Scanner → Scanner
unfolding delimiter_command
split_line dollar_quoting line s = elim (delimiter_command s.state line) [
  | some new_delimiter ↦ record s { delimiter = new_delimiter }
  | none ↦ scan dollar_quoting 0 (line ++ b'\n' ∷ []) s
]

unfoldable pub split_lines : Bool → List Bytes → Scanner → Scanner
split_lines dollar_quoting [] s = s
split_lines dollar_quoting (line ∷ lines) s =
    split_lines dollar_quoting lines (split_line dollar_quoting line s)

abbrev pub start : List Bytes → Scanner
start query_list = record {
  state = normal;
  statement = [];
  query_list = query_list;
  delimiter = codes ";";
  dollar_tag = [];
}

-- The query list after `splitStatements`, which gets the file as its content.
unfoldable pub split_statements : Bool → Bytes → List Bytes → List Bytes
unfolding split_lines split_line
split_statements dollar_quoting content query_list =
    (push_statement (split_lines dollar_quoting (get_lines content) (start query_list))).query_list

-- `query_list` is `none` for a null pointer, and `file` is `none` if it cannot be opened. The result
-- is the list behind the pointer after the call, and what the call returns.
unfoldable pub load_queries_from_file :
    Bool → Option (List Bytes) → Option Bytes → Option (List Bytes) × Bool
unfolding split_statements
load_queries_from_file dollar_quoting none file = (none, false)
load_queries_from_file dollar_quoting (some queries) none = (some queries, false)
load_queries_from_file dollar_quoting (some queries) (some content) =
    (some (split_statements dollar_quoting content queries), true)
