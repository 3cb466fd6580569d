-- ===== src/SqlFileParser/Dollars.antt =====
-- The scanner of src/cSqlFileParser.cpp over a dollar-quoted string: all of it, whatever it holds,
-- goes into the statement.
use pquery.Prelude.{
  Bool, true, false, [], ◌∷◌, ◌++◌, ◌≡◌, ◌≢◌, refl, ap, ◌∙◌, arith, Bytes, length,
  take-length-append, append_assoc,
}
use pquery.SqlFileParser.Text.{
  starts_line_comment, starts_block_comment, compare_at, dollar_quote_open_length,
}
use pquery.SqlFileParser.Grammar.{HasPrefix, IsTagName, dollar_tag_of, IsDollarBody}
use pquery.SqlFileParser.Decides.{compare_at_iff, dollar_quote_open_length-append}
use pquery.SqlFileParser.Pieces.{
  in_state, reading, scan_step, scan_skip, no_delimiter, false_of_not,
}
use pquery.SqlFileParser.Scanner.{
  dollar_quote, Scanner, consume_normal_char, consume_char, consume_dollar_quote_char, scan,
}

module _ (q : Bool) (s : Scanner) (name : Bytes) where
  abbrev tag : Bytes
  tag = dollar_tag_of name

  scan-in_dollar_quote :
      (body input st : Bytes)
      → IsDollarBody tag body input
      → scan q 0 (body ++ (tag ++ input)) (in_state dollar_quote tag s st)
        ≡ scan q 0 input (reading s (st ++ (body ++ tag)))
  unfolding consume_char consume_dollar_quote_char
  scan-in_dollar_quote [] input st h =
      let t = (compare_at_iff (tag ++ input) tag).1 (input, refl) in
      scan_step q b'$' ((name ++ b'$' ∷ []) ++ input) (in_state dollar_quote tag s st)
        (reading s (st ++ tag)) (length (name ++ b'$' ∷ [])) (rw t (ground arith))
      ∙ scan_skip q (name ++ b'$' ∷ []) input (reading s (st ++ tag))
  scan-in_dollar_quote (c ∷ body) input st h =
      let f : compare_at (c ∷ (body ++ (tag ++ input))) tag ≡ false =
        false_of_not _ (λ t. h.0 ((compare_at_iff (c ∷ (body ++ (tag ++ input))) tag).0 t)) in
      scan_step q c (body ++ (tag ++ input)) (in_state dollar_quote tag s st)
        (in_state dollar_quote tag s (st ++ c ∷ [])) 0 (ground (arith, f))
      ∙ scan-in_dollar_quote body input (st ++ c ∷ []) h.1
      ∙ ap (λ x. scan q 0 input (reading s x)) (append_assoc st (c ∷ []) (body ++ tag))

module _ (s : Scanner) (ne : s.delimiter ≢ []) (st : Bytes) where
  dollar_quote_opens :
      (name rest : Bytes)
      → ¬ HasPrefix s.delimiter (dollar_tag_of name ++ rest)
      → IsTagName name
      → consume_normal_char true b'$' ((name ++ b'$' ∷ []) ++ rest) (reading s st) ≡ (
        in_state dollar_quote (dollar_tag_of name) s (st ++ dollar_tag_of name),
        length (name ++ b'$' ∷ []),
      )
  unfolding consume_normal_char starts_line_comment starts_block_comment
  dollar_quote_opens name rest d h =
      let l : dollar_quote_open_length b'$' ((name ++ b'$' ∷ []) ++ rest)
          ≡ length (dollar_tag_of name) =
        ap (dollar_quote_open_length b'$') (append_assoc name (b'$' ∷ []) rest)
        ∙ dollar_quote_open_length-append name rest h in
      rw (no_delimiter true s ne st b'$' _ d, l)
        (ground (arith, take-length-append (name ++ b'$' ∷ []) rest))

  pub scan-dollar_quoted :
      (name body input : Bytes)
      → ¬ HasPrefix s.delimiter (dollar_tag_of name ++ (body ++ (dollar_tag_of name ++ input)))
      → IsTagName name
      → IsDollarBody (dollar_tag_of name) body input
      → scan true 0 (dollar_tag_of name ++ (body ++ (dollar_tag_of name ++ input))) (reading s st)
        ≡ scan true 0 input (reading s (st ++ (dollar_tag_of name ++ (body ++ dollar_tag_of name))))
  unfolding consume_char
  scan-dollar_quoted name body input d h b =
      let tag = dollar_tag_of name in
      let rest = body ++ (tag ++ input) in
      scan_step true b'$' ((name ++ b'$' ∷ []) ++ rest) (reading s st) _ _
        (dollar_quote_opens name rest d h)
      ∙ scan_skip true (name ++ b'$' ∷ []) rest (in_state dollar_quote tag s (st ++ tag))
      ∙ scan-in_dollar_quote true s name body input (st ++ tag) b
      ∙ ap (λ x. scan true 0 input (reading s x)) (append_assoc st tag (body ++ tag))
