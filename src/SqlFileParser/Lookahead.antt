-- ===== src/SqlFileParser/Lookahead.antt =====
-- The scanner of src/cSqlFileParser.cpp gets one line at a time. It never looks beyond the newline at
-- the end of a line, so what follows that newline does not matter to it.
use pquery.Prelude.{
  ℕ, zero, suc, ◌+◌, ◌≤◌, Bool, false, ◌&&◌, List, [], ◌∷◌, ◌++◌, ◌≡◌, ◌≢◌, refl, sym, ap, ◌∙◌,
  arith, Bytes, All, ◌==◌, length, take, is_empty, append_assoc, if◌then◌else◌, equal, is_alnum,
  is_alpha,
}
use pquery.SqlFileParser.Text.{
  next_is, dash_comment, starts_line_comment, starts_block_comment, starts_with_delimiter,
  compare_at, tag_end, tag_start, dollar_quote_open_length,
}
use pquery.SqlFileParser.Bounds.{compare_at_bounds, dollar_quote_open_length_bounds}
use pquery.SqlFileParser.Scanner.{
  ScanState, normal, block_comment, dollar_quote, Scanner, consume_normal_char, consume_quoted_char,
  consume_block_comment_char, consume_dollar_quote_char, consume_char,
}

abbrev pub NoNewline : Bytes → Type 0
NoNewline = All (λ c. c ≢ b'\n')

-- A line with its newline, and a text that follows it.
abbrev pub with_newline : Bytes → Bytes → Bytes
with_newline a b = a ++ b'\n' ∷ b

next_is-lookahead :
    (d : ℕ) (a b : Bytes) → next_is d (with_newline a b) ≡ next_is d (with_newline a [])
next_is-lookahead d [] b = refl
next_is-lookahead d (c ∷ a) b = refl

dash_comment-lookahead :
    (a b : Bytes) → dash_comment (with_newline a b) ≡ dash_comment (with_newline a [])
unfolding dash_comment
dash_comment-lookahead [] [] = refl
dash_comment-lookahead [] (e ∷ b) = refl
dash_comment-lookahead (c ∷ []) b = refl
dash_comment-lookahead (c ∷ d ∷ a) b = refl

compare_at-lookahead :
    (a b s : Bytes)
    → NoNewline s
    → compare_at (with_newline a b) s ≡ compare_at (with_newline a []) s
unfolding compare_at equal
compare_at-lookahead a b [] h = refl
compare_at-lookahead [] b (c ∷ s) h = ground (arith, h.0)
compare_at-lookahead (d ∷ a) b (c ∷ s) h = ap (λ t. d == c && t) (compare_at-lookahead a b s h.1)

-- The test of the lengths in `startsWithDelimiter` follows from the comparison.
starts_with_delimiter_eq :
    (text d : Bytes)
    → starts_with_delimiter text d ≡ (if is_empty d then false else compare_at text d)
unfolding starts_with_delimiter
starts_with_delimiter_eq text d = ground (arith, compare_at_bounds text d)

starts_with_delimiter-lookahead :
    (a b d : Bytes)
    → NoNewline d
    → starts_with_delimiter (with_newline a b) d ≡ starts_with_delimiter (with_newline a []) d
starts_with_delimiter-lookahead a b d h =
    starts_with_delimiter_eq (with_newline a b) d
    ∙ rw (compare_at-lookahead a b d h) (sym (starts_with_delimiter_eq (with_newline a []) d))

starts_line_comment-lookahead :
    (c : ℕ) (a b : Bytes)
    → starts_line_comment c (with_newline a b) ≡ starts_line_comment c (with_newline a [])
unfolding starts_line_comment
starts_line_comment-lookahead c a b = rw (next_is-lookahead b'/' a b, dash_comment-lookahead a b)

starts_block_comment-lookahead :
    (c : ℕ) (a b : Bytes)
    → starts_block_comment c (with_newline a b) ≡ starts_block_comment c (with_newline a [])
unfolding starts_block_comment
starts_block_comment-lookahead c a b = rw (next_is-lookahead b'*' a b)

tag_end-lookahead :
    (i : ℕ) (a b : Bytes) → tag_end i (with_newline a b) ≡ tag_end i (with_newline a [])
unfolding tag_end is_alnum
tag_end-lookahead i [] b = refl
tag_end-lookahead i (c ∷ a) b = rw (tag_end-lookahead (i + 1) a b)

tag_start-lookahead : (a b : Bytes) → tag_start (with_newline a b) ≡ tag_start (with_newline a [])
unfolding tag_start is_alpha
tag_start-lookahead [] b = refl
tag_start-lookahead (c ∷ a) b = rw (tag_end-lookahead 2 a b)

dollar_quote_open_length-lookahead :
    (c : ℕ) (a b : Bytes)
    → dollar_quote_open_length c (with_newline a b) ≡ dollar_quote_open_length c (with_newline a [])
unfolding dollar_quote_open_length
dollar_quote_open_length-lookahead c a b = rw (tag_start-lookahead a b)

take-append_le {ℓ} : {A : Type ℓ} (n : ℕ) (x y : List A) → n ≤ length x → take n (x ++ y) ≡ take n x
take-append_le zero x y h = refl
take-append_le (suc n) [] y h = absurd (omega arith)
take-append_le (suc n) (c ∷ x) y h = ap (◌∷◌ c) (take-append_le n x y (omega arith))

take_tag-lookahead :
    (c : ℕ) (a b : Bytes)
    → let len = dollar_quote_open_length c (with_newline a []) in
      take len (c ∷ with_newline a b) ≡ take len (c ∷ with_newline a [])
take_tag-lookahead c a b =
    let len = dollar_quote_open_length c (with_newline a []) in
    ap (λ t. take len (c ∷ t)) (sym (append_assoc a (b'\n' ∷ []) b))
    ∙ take-append_le len (c ∷ with_newline a []) b
        (dollar_quote_open_length_bounds c (with_newline a []))

consume_normal_char-lookahead :
    (q : Bool) (c : ℕ) (a b : Bytes) (s : Scanner)
    → NoNewline s.delimiter
    → consume_normal_char q c (with_newline a b) s ≡ consume_normal_char q c (with_newline a []) s
unfolding consume_normal_char
consume_normal_char-lookahead q c a b s h = rw (
  starts_with_delimiter-lookahead (c ∷ a) b s.delimiter h,
  starts_line_comment-lookahead c a b,
  starts_block_comment-lookahead c a b,
  dollar_quote_open_length-lookahead c a b,
  take_tag-lookahead c a b,
)

-- In front of the newline at the end of the line.
pub consume_char-lookahead :
    (q : Bool) (m : ScanState) (c : ℕ) (a b : Bytes) (s : Scanner)
    → NoNewline s.delimiter
    → NoNewline s.dollar_tag
    → consume_char q m c (with_newline a b) s ≡ consume_char q m c (with_newline a []) s
unfolding consume_char consume_quoted_char consume_block_comment_char consume_dollar_quote_char
consume_char-lookahead q normal c a b s h t = consume_normal_char-lookahead q c a b s h
consume_char-lookahead q block_comment c a b s h t = rw (next_is-lookahead b'/' a b)
consume_char-lookahead q dollar_quote c a b s h t =
    rw (compare_at-lookahead (c ∷ a) b s.dollar_tag t)
consume_char-lookahead q _ c [] b s h t = refl
consume_char-lookahead q _ c (d ∷ a) b s h t = refl

-- At that newline.
pub consume_char_newline :
    (q : Bool) (m : ScanState) (b : Bytes) (s : Scanner)
    → NoNewline s.delimiter
    → consume_char q m b'\n' b s ≡ consume_char q m b'\n' [] s
unfolding consume_char consume_normal_char consume_quoted_char consume_block_comment_char
    consume_dollar_quote_char starts_line_comment starts_block_comment dollar_quote_open_length
consume_char_newline q normal b s h = rw (starts_with_delimiter-lookahead [] b s.delimiter h)
consume_char_newline q _ [] s h = refl
consume_char_newline q _ (c ∷ b) s h = refl
