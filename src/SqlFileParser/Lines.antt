-- ===== src/SqlFileParser/Lines.antt =====
-- `splitStatements` of src/cSqlFileParser.cpp reads its file line by line. Where no line is a
-- delimiter command, that is the same as to scan the whole text at once.
use pquery.Prelude.{
  ℕ, zero, suc, ◌≤◌, Bool, true, ◌&&◌, List, [], ◌∷◌, ◌++◌, ◌≡◌, ◌≢◌, refl, sym, ap, ◌∙◌, arith,
  none, Bytes, All, ◌==◌, ltb, length, length-append, take, take-length-append, append_assoc,
  is_alnum, is_alpha,
}
use pquery.SqlFileParser.Text.{is_delimiter_command, dollar_quote_open_length}
use pquery.SqlFileParser.Grammar.{TagChar, IsTagName, dollar_tag_of}
use pquery.SqlFileParser.Decides.{dollar_quote_open_length-append, dollar_quote_open_length_sound}
use pquery.SqlFileParser.Bounds.{consume_char_bounds}
use pquery.SqlFileParser.Cases.{consume_normal_char_cases}
use pquery.SqlFileParser.Lookahead.{
  NoNewline, with_newline, consume_char-lookahead, consume_char_newline,
}
use pquery.SqlFileParser.Scanner.{
  ScanState, normal, Scanner, push_statement, consume_plain_char, consume_char, scan,
  delimiter_command, split_line, split_lines,
}

-- The delimiter and the tag stand in one line.
pub record OneLine (s : Scanner) : Type 0 where
  pub delimiter_line : NoNewline s.delimiter
  pub tag_line : NoNewline s.dollar_tag

TagChar-ne-newline : (c : ℕ) → TagChar c → c ≢ b'\n'
unfolding is_alnum is_alpha
TagChar-ne-newline c h = ground arith

tag_chars-NoNewline : (name : Bytes) → All TagChar name → NoNewline (name ++ b'$' ∷ [])
tag_chars-NoNewline [] h = (λ e. omega arith, tt)
tag_chars-NoNewline (c ∷ name) h = (TagChar-ne-newline c h.0, tag_chars-NoNewline name h.1)

IsTagName-chars : (name : Bytes) → IsTagName name → All TagChar name
unfolding is_alnum
IsTagName-chars [] h = tt
IsTagName-chars (c ∷ name) h = (ground arith, h.1)

dollar_tag_of-NoNewline : (name : Bytes) → IsTagName name → NoNewline (dollar_tag_of name)
dollar_tag_of-NoNewline name n =
    (λ e. omega arith, tag_chars-NoNewline name (IsTagName-chars name n))

cut_tag :
    (name rest : Bytes)
    → IsTagName name
    → let behind = (name ++ b'$' ∷ []) ++ rest in
      take (dollar_quote_open_length b'$' behind) (b'$' ∷ behind) ≡ dollar_tag_of name
cut_tag name rest n =
    let behind = (name ++ b'$' ∷ []) ++ rest in
    let len : dollar_quote_open_length b'$' behind ≡ length (dollar_tag_of name) =
      ap (dollar_quote_open_length b'$') (append_assoc name (b'$' ∷ []) rest)
      ∙ dollar_quote_open_length-append name rest n in
    ap (λ k. take k (b'$' ∷ behind)) len ∙ take-length-append (dollar_tag_of name) rest

-- The tag that the scanner cuts out where a dollar quote opens.
opened_tag :
    (c : ℕ) (rest : Bytes)
    → (c == b'$' && ltb 0 (dollar_quote_open_length c rest)) ≡ true
    → NoNewline (take (dollar_quote_open_length c rest) (c ∷ rest))
opened_tag c rest h =
    let (name, n, p) = dollar_quote_open_length_sound c rest h in
    let first : c ≡ b'$' = cc (p.1) in
    let behind : rest ≡ (name ++ b'$' ∷ []) ++ p.0 = cc (p.1) in
    rw (first, behind, cut_tag name p.0 n) (dollar_tag_of-NoNewline name n)

consume_char-OneLine :
    (q : Bool) (m : ScanState) (c : ℕ) (rest : Bytes) {s : Scanner}
    → OneLine s
    → OneLine (consume_char q m c rest s).0
unfolding consume_char
consume_char-OneLine q normal c rest {s} v =
    consume_normal_char_cases (λ r. OneLine r.0) q c rest s
      (λ _. unfold push_statement in ground arith) (λ _. ground arith) (λ _. ground arith)
      (λ h. record {
        delimiter_line = v.delimiter_line;
        tag_line = opened_tag c rest (ground arith);
      })
      (unfold consume_plain_char in ground arith)
consume_char-OneLine q _ c [] v = ground arith
consume_char-OneLine q _ c (d ∷ rest) v = ground arith

-- A line is scanned with no regard to what follows it.
scan-with_newline :
    (q : Bool) (skip : ℕ) (a b : Bytes) (s : Scanner)
    → OneLine s
    → skip ≤ suc (length a)
    → scan q skip (with_newline a b) s ≡ scan q 0 b (scan q skip (with_newline a []) s)
unfolding scan
scan-with_newline q zero [] b s v h =
    let r = consume_char q s.state b'\n' [] s in
    let none_skipped : r.1 ≡ 0 = omega (arith, consume_char_bounds q s.state b'\n' [] s) in
    rw (consume_char_newline q s.state b s v.delimiter_line, scan)
      (ap (λ k. scan q k b r.0) none_skipped)
scan-with_newline q (suc zero) [] b s v h = refl
scan-with_newline q (suc (suc k)) [] b s v h = absurd (omega arith)
scan-with_newline q (suc k) (c ∷ a) b s v h = scan-with_newline q k a b s v (omega arith)
scan-with_newline q zero (c ∷ a) b s v h =
    let line = with_newline a [] in
    let r = consume_char q s.state c line s in
    let fits : r.1 ≤ suc (length a) =
      omega (arith, consume_char_bounds q s.state c line s, length-append a (b'\n' ∷ [])) in
    rw (consume_char-lookahead q s.state c a b s v.delimiter_line v.tag_line, scan)
      (scan-with_newline q r.1 a b r.0 (consume_char-OneLine q s.state c line v) fits)

scan-OneLine :
    (q : Bool) (skip : ℕ) (text : Bytes) {s : Scanner} → OneLine s → OneLine (scan q skip text s)
unfolding scan
scan-OneLine q skip [] v = v
scan-OneLine q (suc skip) (c ∷ rest) v = scan-OneLine q skip rest v
scan-OneLine q zero (c ∷ rest) {s} v =
    scan-OneLine q (consume_char q s.state c rest s).1 rest
      (consume_char-OneLine q s.state c rest v)

-- The lines as one text, each with its newline.
abbrev pub unlines : List Bytes → Bytes
unlines [] = []
unlines (line ∷ lines) = line ++ b'\n' ∷ unlines lines

abbrev pub NoCommand : Bytes → Type 0
NoCommand line = is_delimiter_command line ≡ none

no_command : (m : ScanState) (line : Bytes) → NoCommand line → delimiter_command m line ≡ none
unfolding delimiter_command
no_command normal line h = h
no_command _ line h = refl

split_line-NoCommand :
    (q : Bool) (line : Bytes) (s : Scanner)
    → NoCommand line
    → split_line q line s ≡ scan q 0 (with_newline line []) s
unfolding split_line
split_line-NoCommand q line s h = rw (no_command s.state line h, split_line)

-- Where no line is a delimiter command, and neither the delimiter nor the dollar tag of the
-- scanner has a newline in it, reading line by line is the same as one scan of the lines joined by
-- newlines.
pub split_lines-scan :
    (q : Bool) (lines : List Bytes) (s : Scanner)
    → OneLine s
    → All NoCommand lines
    → split_lines q lines s ≡ scan q 0 (unlines lines) s
unfolding split_lines scan
split_lines-scan q [] s v h = refl
split_lines-scan q (line ∷ lines) s v h =
    ap (split_lines q lines) (split_line-NoCommand q line s h.0)
    ∙ split_lines-scan q lines _ (scan-OneLine q 0 (with_newline line []) v) h.1
    ∙ sym (scan-with_newline q 0 line (unlines lines) s v (omega arith))
