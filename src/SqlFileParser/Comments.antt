-- ===== src/SqlFileParser/Comments.antt =====
-- The scanner of src/cSqlFileParser.cpp over a comment: it adds nothing to the statement.
use pquery.Prelude.{
  ℕ, Bool, true, false, ◌||◌, [], ◌∷◌, ◌++◌, ◌≡◌, ◌≢◌, refl, ◌∙◌, inl, inr, arith, Bytes, All, ◌==◌,
  Bool-cases, if◌then◌else◌,
}
use pquery.SqlFileParser.Text.{starts_line_comment, starts_block_comment}
use pquery.SqlFileParser.Grammar.{HasPrefix, OpensLineComment, IsBlockBody}
use pquery.SqlFileParser.Decides.{starts_line_comment_iff}
use pquery.SqlFileParser.Pieces.{in_state, reading, scan_step, no_delimiter}
use pquery.SqlFileParser.Scanner.{
  line_comment, block_comment, Scanner, consume_normal_char, consume_char, scan,
}

scan-in_line_comment :
    (q : Bool) (s : Scanner) (body input st : Bytes)
    → All (λ c. c ≢ b'\n') body
    → scan q 0 (body ++ b'\n' ∷ input) (in_state line_comment [] s st)
      ≡ scan q 0 input (reading s st)
unfolding consume_char
scan-in_line_comment q s [] input st h =
    scan_step q b'\n' input (in_state line_comment [] s st) _ 0 refl
scan-in_line_comment q s (c ∷ body) input st h =
    scan_step q c (body ++ b'\n' ∷ input) (in_state line_comment [] s st)
      (in_state line_comment [] s st) 0 (ground (arith, h.0))
    ∙ scan-in_line_comment q s body input st h.1

no_second_char :
    (c : ℕ) (rest : Bytes)
    → starts_line_comment c (b'\n' ∷ rest) ≡ true
    → (c == b'/' || c == b'-') ≡ false
unfolding starts_line_comment
no_second_char c [] h = ground arith
no_second_char c (d ∷ rest) h = ground arith

-- The second character of an opener is passed over, and is no newline.
scan-line_comment_opened :
    (q : Bool) (s : Scanner) (c : ℕ) (body input st : Bytes)
    → starts_line_comment c (body ++ b'\n' ∷ input) ≡ true
    → All (λ c. c ≢ b'\n') body
    → scan q
        (if c == b'/' || c == b'-' then 1 else 0)
        (body ++ b'\n' ∷ input)
        (in_state line_comment [] s st)
      ≡ scan q 0 input (reading s st)
unfolding scan
scan-line_comment_opened q s c [] input st t h =
    let e : (c == b'/' || c == b'-') ≡ false = no_second_char c input t in
    rw e (scan-in_line_comment q s [] input st h)
scan-line_comment_opened q s c (b ∷ body) input st t h =
    elim (Bool-cases (c == b'/' || c == b'-')) [
      | inl e ↦ rw e (scan-in_line_comment q s body input st h.1)
      | inr e ↦ rw e (scan-in_line_comment q s (b ∷ body) input st h)
    ]

module _ (q : Bool) (s : Scanner) (ne : s.delimiter ≢ []) (st : Bytes) where
  pub scan-line_comment :
      (c : ℕ) (body input : Bytes)
      → ¬ HasPrefix s.delimiter (c ∷ (body ++ b'\n' ∷ input))
      → OpensLineComment (c ∷ (body ++ b'\n' ∷ input))
      → All (λ c. c ≢ b'\n') body
      → scan q 0 (c ∷ (body ++ b'\n' ∷ input)) (reading s st) ≡ scan q 0 input (reading s st)
  unfolding consume_char consume_normal_char
  scan-line_comment c body input d o h =
      let t = (starts_line_comment_iff c (body ++ b'\n' ∷ input)).1 o in
      scan_step q c (body ++ b'\n' ∷ input) (reading s st) _ _
        (rw (no_delimiter q s ne st c (body ++ b'\n' ∷ input) d, t))
      ∙ scan-line_comment_opened q s c body input st t h

scan-in_block_comment :
    (q : Bool) (s : Scanner) (body input st : Bytes)
    → IsBlockBody body
    → scan q 0 (body ++ b'*' ∷ b'/' ∷ input) (in_state block_comment [] s st)
      ≡ scan q 0 input (reading s st)
unfolding consume_char scan
scan-in_block_comment q s [] input st h = refl
scan-in_block_comment q s (c ∷ []) input st h =
    scan_step q c (b'*' ∷ b'/' ∷ input) (in_state block_comment [] s st)
      (in_state block_comment [] s st) 0 (ground arith)
    ∙ scan-in_block_comment q s [] input st tt
scan-in_block_comment q s (c ∷ d ∷ body) input st h =
    scan_step q c (d ∷ (body ++ b'*' ∷ b'/' ∷ input)) (in_state block_comment [] s st)
      (in_state block_comment [] s st) 0 (ground (arith, h.0))
    ∙ scan-in_block_comment q s (d ∷ body) input st h.1

module _ (q : Bool) (s : Scanner) (ne : s.delimiter ≢ []) (st : Bytes) where
  pub scan-block_comment :
      (body input : Bytes)
      → ¬ HasPrefix s.delimiter (b'/' ∷ b'*' ∷ (body ++ b'*' ∷ b'/' ∷ input))
      → IsBlockBody body
      → scan q 0 (b'/' ∷ b'*' ∷ (body ++ b'*' ∷ b'/' ∷ input)) (reading s st)
        ≡ scan q 0 input (reading s st)
  unfolding consume_char consume_normal_char starts_line_comment starts_block_comment scan
  scan-block_comment body input d h =
      let text = b'*' ∷ (body ++ b'*' ∷ b'/' ∷ input) in
      scan_step q b'/' text (reading s st) (in_state block_comment [] s st) 1
        (rw (no_delimiter q s ne st b'/' text d))
      ∙ scan-in_block_comment q s body input st h
