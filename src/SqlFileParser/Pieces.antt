-- ===== src/SqlFileParser/Pieces.antt =====
-- The scanner of src/cSqlFileParser.cpp over one piece of a script, with any `input` behind it.
use pquery.Prelude.{
  ℕ, Bool, true, false, ◌&&◌, [], ◌∷◌, ◌++◌, ◌≡◌, ◌≢◌, refl, ap, ◌∙◌, ◌⊎◌, arith, Bytes, All, ◌==◌,
  ltb, length, append_assoc,
}
use pquery.SqlFileParser.Text.{
  starts_line_comment, starts_block_comment, starts_with_delimiter, dollar_quote_open_length,
}
use pquery.SqlFileParser.Grammar.{HasPrefix, IsQuoted, nil, char, escaped, IsPlain}
use pquery.SqlFileParser.Decides.{
  starts_line_comment_iff, starts_block_comment_iff, starts_with_delimiter_iff,
  dollar_quote_open_length_sound,
}
use pquery.SqlFileParser.Scanner.{
  ScanState, normal, single_quote, double_quote, backtick, Scanner, push_back, consume_plain_char,
  consume_normal_char, consume_quoted_char, consume_char, scan,
}

pub false_of_not : (b : Bool) → ¬ (b ≡ true) → b ≡ false
false_of_not true h = absurd (h refl)
false_of_not false h = refl

-- The scanner `s` in another state, with another statement and tag.
abbrev pub in_state : ScanState → Bytes → Scanner → Bytes → Scanner
in_state m tag s statement = record s { state = m; statement = statement; dollar_tag = tag }

abbrev pub reading : Scanner → Bytes → Scanner
reading = in_state normal []

pub scan_step :
    (q : Bool) (c : ℕ) (rest : Bytes) (s t : Scanner) (k : ℕ)
    → consume_char q s.state c rest s ≡ (t, k)
    → scan q 0 (c ∷ rest) s ≡ scan q k rest t
unfolding scan
scan_step q c rest s t k e = rw e

pub scan_skip : (q : Bool) (a b : Bytes) (s : Scanner) → scan q (length a) (a ++ b) s ≡ scan q 0 b s
unfolding scan
scan_skip q [] b s = refl
scan_skip q (c ∷ a) b s = scan_skip q a b s

-- In the normal state, with no delimiter here.
module _ (q : Bool) (s : Scanner) (ne : s.delimiter ≢ []) (st : Bytes) where
  pub no_delimiter :
      (c : ℕ) (rest : Bytes)
      → ¬ HasPrefix s.delimiter (c ∷ rest)
      → starts_with_delimiter (c ∷ rest) s.delimiter ≡ false
  no_delimiter c rest h =
      false_of_not _ (λ t. h ((starts_with_delimiter_iff (c ∷ rest) s.delimiter ne).0 t))

  consume_plain_char-IsPlain :
      (c : ℕ) (input : Bytes)
      → IsPlain q s.delimiter c input
      → consume_plain_char c (reading s st) ≡ reading s (st ++ c ∷ [])
  unfolding consume_plain_char
  consume_plain_char-IsPlain c input p = ground (arith, p.no_quote, p.no_backtick)

  no_dollar_quote :
      (c : ℕ) (input : Bytes)
      → IsPlain q s.delimiter c input
      → (q && c == b'$' && ltb 0 (dollar_quote_open_length c input)) ≡ false
  no_dollar_quote c input p = false_of_not _ (λ t.
      p.no_dollar_quote (ground arith) (dollar_quote_open_length_sound c input (ground arith)))

  pub scan-plain :
      (c : ℕ) (input : Bytes)
      → IsPlain q s.delimiter c input
      → scan q 0 (c ∷ input) (reading s st) ≡ scan q 0 input (reading s (st ++ c ∷ []))
  unfolding consume_char consume_normal_char
  scan-plain c input p =
      let d = no_delimiter c input p.no_delimiter in
      let l : starts_line_comment c input ≡ false =
        false_of_not _ (λ t. p.no_line_comment ((starts_line_comment_iff c input).0 t)) in
      let b : starts_block_comment c input ≡ false =
        false_of_not _ (λ t. p.no_block_comment ((starts_block_comment_iff c input).0 t)) in
      scan_step q c input (reading s st) _ 0 (
        rw (d, l, b, no_dollar_quote c input p)
          (ap (λ t. (t, 0)) (consume_plain_char-IsPlain c input p)))

  pub scan-quote_opens :
      (c : ℕ) (input : Bytes)
      → ¬ HasPrefix s.delimiter (c ∷ input)
      → (m : ScanState)
      → ((c ≡ b'\'') × (m ≡ single_quote))
        ⊎ ((c ≡ b'"') × (m ≡ double_quote))
        ⊎ ((c ≡ b'`') × (m ≡ backtick))
      → scan q 0 (c ∷ input) (reading s st) ≡ scan q 0 input (in_state m [] s (st ++ c ∷ []))
  unfolding consume_char consume_normal_char consume_plain_char starts_line_comment
      starts_block_comment
  scan-quote_opens c input h m k =
      let d = no_delimiter c input h in scan_step q c input (reading s st) _ 0 (ground arith)

-- Inside a quoted string.
module _ (q : Bool) (m : ScanState) (quote : ℕ)
    (reads : (c : ℕ) (rest : Bytes) (s : Scanner)
      → consume_char q m c rest s ≡ consume_quoted_char c rest quote s)
    (solid : quote ≢ b'\\') where
  quoted_end :
      (rest : Bytes) (s : Scanner)
      → consume_quoted_char quote rest quote s ≡ (push_back s quote normal, 0)
  unfolding consume_quoted_char
  quoted_end [] s = ground arith
  quoted_end (d ∷ rest) s = ground (arith, solid)

  quoted_char :
      (c : ℕ) (rest : Bytes) (s : Scanner)
      → c ≢ quote
      → c ≢ b'\\'
      → consume_quoted_char c rest quote s ≡ (push_back s c s.state, 0)
  unfolding consume_quoted_char
  quoted_char c [] s h k = ground arith
  quoted_char c (d ∷ rest) s h k = ground arith

  pub scan-quoted :
      {body : Bytes} (s : Scanner) (input st : Bytes)
      → IsQuoted quote body
      → scan q 0 (body ++ quote ∷ input) (in_state m [] s st)
        ≡ scan q 0 input (reading s (st ++ (body ++ quote ∷ [])))
  unfolding consume_quoted_char scan
  scan-quoted s input st nil =
      scan_step q quote input (in_state m [] s st) _ 0
        (reads quote input (in_state m [] s st) ∙ quoted_end input (in_state m [] s st))
  scan-quoted s input st (char {c} {body} h k t) =
      scan_step q c (body ++ quote ∷ input) (in_state m [] s st) _ 0
        (reads c _ (in_state m [] s st) ∙ quoted_char c _ (in_state m [] s st) h k)
      ∙ scan-quoted s input (st ++ c ∷ []) t
      ∙ ap (λ x. scan q 0 input (reading s x)) (append_assoc st (c ∷ []) _)
  scan-quoted s input st (escaped {c} {body} t) =
      scan_step q b'\\' (c ∷ (body ++ quote ∷ input)) (in_state m [] s st) _ 1
        (reads b'\\' _ (in_state m [] s st))
      ∙ scan-quoted s input (st ++ b'\\' ∷ c ∷ []) t
      ∙ ap (λ x. scan q 0 input (reading s x)) (append_assoc st (b'\\' ∷ c ∷ []) _)

pub scan-backticked :
    (q : Bool) (s : Scanner) (body input st : Bytes)
    → All (λ c. c ≢ b'`') body
    → scan q 0 (body ++ b'`' ∷ input) (in_state backtick [] s st)
      ≡ scan q 0 input (reading s (st ++ (body ++ b'`' ∷ [])))
unfolding consume_char
scan-backticked q s [] input st h = scan_step q b'`' input (in_state backtick [] s st) _ 0 refl
scan-backticked q s (c ∷ body) input st h =
    scan_step q c (body ++ b'`' ∷ input) (in_state backtick [] s st)
      (in_state backtick [] s (st ++ c ∷ [])) 0 (ground (arith, h.0))
    ∙ scan-backticked q s body input (st ++ c ∷ []) h.1
    ∙ ap (λ x. scan q 0 input (reading s x)) (append_assoc st (c ∷ []) (body ++ b'`' ∷ []))
