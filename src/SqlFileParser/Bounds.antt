-- ===== src/SqlFileParser/Bounds.antt =====
-- How far the scanner of src/cSqlFileParser.cpp moves on: never behind the end of the text.
use pquery.Prelude.{
  ℕ, zero, suc, ◌+◌, ◌≤◌, Bool, true, List, [], ◌∷◌, ◌≡◌, ap, arith, Bytes, length, take, equal_iff,
  ◌==◌, ◌||◌, if◌then◌else◌,
}
use pquery.SqlFileParser.Text.{
  starts_line_comment, starts_block_comment, compare_at, starts_with_delimiter, tag_end, tag_start,
  dollar_quote_open_length,
}
use pquery.SqlFileParser.Cases.{consume_normal_char_cases}
use pquery.SqlFileParser.Scanner.{
  ScanState, normal, block_comment, dollar_quote, Scanner, consume_normal_char, consume_char,
}

length-take-le {ℓ} : {A : Type ℓ} (n : ℕ) (xs : List A) → length (take n xs) ≤ length xs
length-take-le zero xs = omega arith
length-take-le (suc n) [] = omega arith
length-take-le (suc n) (x ∷ xs) = omega (arith, length-take-le n xs)

pub length-take-le_count {ℓ} : {A : Type ℓ} (n : ℕ) (xs : List A) → length (take n xs) ≤ n
length-take-le_count zero xs = omega arith
length-take-le_count (suc n) [] = omega arith
length-take-le_count (suc n) (x ∷ xs) = omega (arith, length-take-le_count n xs)

pub compare_at_eq : (text s : Bytes) → compare_at text s ≡ true → take (length s) text ≡ s
unfolding compare_at
compare_at_eq text s h = (equal_iff (take (length s) text) s).0 h

pub compare_at_bounds : (text s : Bytes) → compare_at text s ≡ true → length s ≤ length text
compare_at_bounds text s h =
    omega (arith, ap length (compare_at_eq text s h), length-take-le (length s) text)

pub starts_with_delimiter_bounds :
    (text delimiter : Bytes)
    → starts_with_delimiter text delimiter ≡ true
    → length delimiter ≤ length text
unfolding starts_with_delimiter
starts_with_delimiter_bounds text delimiter h = ground (arith, compare_at_bounds text delimiter)

tag_end_bounds : (i : ℕ) (rest : Bytes) → tag_end i rest ≤ i + length rest
unfolding tag_end
tag_end_bounds i [] = omega arith
tag_end_bounds i (c ∷ rest) = ground (arith, tag_end_bounds (i + 1) rest)

pub dollar_quote_open_length_bounds :
    (c : ℕ) (rest : Bytes) → dollar_quote_open_length c rest ≤ suc (length rest)
unfolding dollar_quote_open_length tag_start
dollar_quote_open_length_bounds c [] = ground arith
dollar_quote_open_length_bounds c (d ∷ rest) = ground (arith, tag_end_bounds 2 rest)

starts_line_comment_bounds :
    (c : ℕ) (rest : Bytes)
    → starts_line_comment c rest ≡ true
    → (if c == b'/' || c == b'-' then 1 else 0) ≤ length rest
unfolding starts_line_comment
starts_line_comment_bounds c [] h = ground arith
starts_line_comment_bounds c (d ∷ rest) h = ground arith

starts_block_comment_bounds :
    (c : ℕ) (rest : Bytes) → starts_block_comment c rest ≡ true → 1 ≤ length rest
unfolding starts_block_comment
starts_block_comment_bounds c [] h = ground arith
starts_block_comment_bounds c (d ∷ rest) h = omega arith

consume_normal_char_bounds :
    (q : Bool) (c : ℕ) (rest : Bytes) (s : Scanner)
    → (consume_normal_char q c rest s).1 ≤ length rest
consume_normal_char_bounds q c rest s =
    consume_normal_char_cases (λ r. r.1 ≤ length rest) q c rest s
      (λ h. omega (arith, starts_with_delimiter_bounds (c ∷ rest) s.delimiter h))
      (starts_line_comment_bounds c rest) (starts_block_comment_bounds c rest)
      (λ _. omega (arith, dollar_quote_open_length_bounds c rest)) (omega arith)

-- In every state the scanner moves `pos` on by no more than the characters that are left.
pub consume_char_bounds :
    (q : Bool) (m : ScanState) (c : ℕ) (rest : Bytes) (s : Scanner)
    → (consume_char q m c rest s).1 ≤ length rest
unfolding consume_char
consume_char_bounds q normal c rest s = consume_normal_char_bounds q c rest s
consume_char_bounds q block_comment c [] s = ground arith
consume_char_bounds q block_comment c (d ∷ rest) s = ground arith
consume_char_bounds q dollar_quote c rest s =
    ground (arith, compare_at_bounds (c ∷ rest) s.dollar_tag)
consume_char_bounds q _ c [] s = ground arith
consume_char_bounds q _ c (d ∷ rest) s = ground arith
