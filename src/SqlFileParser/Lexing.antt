-- ===== src/SqlFileParser/Lexing.antt =====
-- The scanner of src/cSqlFileParser.cpp reads a text as the grammar does.
use pquery.Prelude.{
  ℕ, Bool, true, [], ◌∷◌, ◌++◌, ◌≡◌, ◌≢◌, refl, sym, ap, ◌∙◌, inl, inr, arith, Bytes, append_assoc,
  append-nil, All,
}
use pquery.SqlFileParser.Grammar.{
  HasPrefix, IsQuote, IsQuoted, IsTagName, IsDollarBody, Lexes, stop, plain, quoted, backticked,
  line_comment, block_comment, dollar_quoted, dollar_tag_of,
}
use pquery.SqlFileParser.Pieces.{
  reading, scan-plain, scan-quote_opens, scan-quoted, scan-backticked,
}
use pquery.SqlFileParser.Comments.{scan-line_comment, scan-block_comment}
use pquery.SqlFileParser.Dollars.{scan-dollar_quoted}
use pquery.SqlFileParser.Scanner.{single_quote, double_quote, backtick, Scanner, consume_char, scan}

module _ (q : Bool) (s : Scanner) (ne : s.delimiter ≢ []) where
  scan-quoted_string :
      (quote : ℕ) (body input st : Bytes)
      → IsQuote quote
      → ¬ HasPrefix s.delimiter (quote ∷ (body ++ quote ∷ input))
      → IsQuoted quote body
      → scan q 0 (quote ∷ (body ++ quote ∷ input)) (reading s st)
        ≡ scan q 0 input (reading s (st ++ (quote ∷ (body ++ quote ∷ []))))
  unfolding consume_char
  scan-quoted_string quote body input st (inl e) d b =
      scan-quote_opens q s ne st quote (body ++ quote ∷ input) d single_quote (inl (e, refl))
      ∙ scan-quoted q single_quote quote (λ c rest t. rw e) (omega arith) s input (st ++ quote ∷ [])
          b
      ∙ ap (λ x. scan q 0 input (reading s x)) (append_assoc st (quote ∷ []) _)
  scan-quoted_string quote body input st (inr e) d b =
      scan-quote_opens q s ne st quote (body ++ quote ∷ input) d double_quote (inr (inl (e, refl)))
      ∙ scan-quoted q double_quote quote (λ c rest t. rw e) (omega arith) s input (st ++ quote ∷ [])
          b
      ∙ ap (λ x. scan q 0 input (reading s x)) (append_assoc st (quote ∷ []) _)

  scan-backticked_name :
      (body input st : Bytes)
      → ¬ HasPrefix s.delimiter (b'`' ∷ (body ++ b'`' ∷ input))
      → All (λ c. c ≢ b'`') body
      → scan q 0 (b'`' ∷ (body ++ b'`' ∷ input)) (reading s st)
        ≡ scan q 0 input (reading s (st ++ b'`' ∷ (body ++ b'`' ∷ [])))
  scan-backticked_name body input st d b =
      scan-quote_opens q s ne st b'`' (body ++ b'`' ∷ input) d backtick (inr (inr (refl, refl)))
      ∙ scan-backticked q s body input (st ++ b'`' ∷ []) b
      ∙ ap (λ x. scan q 0 input (reading s x)) (append_assoc st (b'`' ∷ []) _)

  scan-dollar_string :
      (name body input st : Bytes)
      → q ≡ true
      → ¬ HasPrefix s.delimiter (dollar_tag_of name ++ (body ++ (dollar_tag_of name ++ input)))
      → IsTagName name
      → IsDollarBody (dollar_tag_of name) body input
      → scan q 0 (dollar_tag_of name ++ (body ++ (dollar_tag_of name ++ input))) (reading s st)
        ≡ scan q 0 input (reading s (st ++ (dollar_tag_of name ++ (body ++ dollar_tag_of name))))
  scan-dollar_string name body input st e d n b =
      rw e (scan-dollar_quoted s ne st name body input d n b)

  -- From the normal state and for a delimiter that is not empty, the scanner passes over the
  -- pieces that a text is made of (plain characters, quoted strings, names, comments, dollar
  -- quotes) and adds exactly what they mean to the statement: nothing inside a quote or a comment
  -- ends a statement.
  pub scan-Lexes :
      {rest input text : Bytes} (st : Bytes)
      → Lexes q s.delimiter rest input text
      → scan q 0 input (reading s st) ≡ scan q 0 rest (reading s (st ++ text))
  scan-Lexes {rest} st stop = ap (λ x. scan q 0 rest (reading s x)) (sym (append-nil st))
  scan-Lexes {rest} st (plain {c} {input} {text} p t) =
      scan-plain q s ne st c input p
      ∙ scan-Lexes (st ++ c ∷ []) t
      ∙ ap (λ x. scan q 0 rest (reading s x)) (simp append_assoc)
  scan-Lexes {rest} st (quoted quote body input text k d b t) =
      scan-quoted_string quote body input st k d b
      ∙ scan-Lexes (st ++ quote ∷ (body ++ quote ∷ [])) t
      ∙ ap (λ x. scan q 0 rest (reading s x)) (simp append_assoc)
  scan-Lexes {rest} st (backticked body input text d b t) =
      scan-backticked_name body input st d b
      ∙ scan-Lexes (st ++ b'`' ∷ (body ++ b'`' ∷ [])) t
      ∙ ap (λ x. scan q 0 rest (reading s x)) (simp append_assoc)
  scan-Lexes st (line_comment c body input text d o b t) =
      scan-line_comment q s ne st c body input d o b ∙ scan-Lexes st t
  scan-Lexes st (block_comment body input text d b t) =
      scan-block_comment q s ne st body input d b ∙ scan-Lexes st t
  scan-Lexes {rest} st (dollar_quoted name body input text e d n b t) =
      scan-dollar_string name body input st e d n b
      ∙ scan-Lexes (st ++ (dollar_tag_of name ++ (body ++ dollar_tag_of name))) t
      ∙ ap (λ x. scan q 0 rest (reading s x)) (simp append_assoc)
