-- ===== src/SqlFileParser/Cases.antt =====
-- The branches of the scanner of src/cSqlFileParser.cpp, for proofs that go through all of them.
use pquery.Prelude.{
  ℕ, ◌-◌, Bool, true, ◌&&◌, ◌||◌, ◌∷◌, ◌≡◌, inl, inr, Bytes, length, take, ltb, ◌==◌, if◌then◌else◌,
  Bool-cases,
}
use pquery.SqlFileParser.Text.{
  starts_with_delimiter, starts_line_comment, starts_block_comment, dollar_quote_open_length,
}
use pquery.SqlFileParser.Scanner.{
  line_comment, block_comment, Scanner, push_statement, open_dollar_quote, consume_plain_char,
  consume_normal_char,
}

module _ {ℓ} (P : Scanner × ℕ → Type ℓ) (q : Bool) (c : ℕ) (rest : Bytes) (s : Scanner) where
  pub consume_normal_char_cases :
      (starts_with_delimiter (c ∷ rest) s.delimiter ≡ true
        → P (push_statement s, length s.delimiter - 1))
      → (starts_line_comment c rest ≡ true
          → P (record s { state = line_comment }, if c == b'/' || c == b'-' then 1 else 0))
      → (starts_block_comment c rest ≡ true → P (record s { state = block_comment }, 1))
      → ((q && c == b'$' && ltb 0 (dollar_quote_open_length c rest)) ≡ true
          → P (
            open_dollar_quote s (take (dollar_quote_open_length c rest) (c ∷ rest)),
            dollar_quote_open_length c rest - 1,
          ))
      → P (consume_plain_char c s, 0)
      → P (consume_normal_char q c rest s)
  unfolding consume_normal_char
  consume_normal_char_cases delimited line block dollar plain =
      elim (Bool-cases (starts_with_delimiter (c ∷ rest) s.delimiter)) [
        | inl h ↦ rw h (delimited h)
        | inr h ↦ rw h (elim (Bool-cases (starts_line_comment c rest)) [
          | inl h ↦ rw h (line h)
          | inr h ↦ rw h (elim (Bool-cases (starts_block_comment c rest)) [
            | inl h ↦ rw h (block h)
            | inr h ↦
                rw h
                  (elim (Bool-cases (q && c == b'$' && ltb 0 (dollar_quote_open_length c rest))) [
                    | inl h ↦ rw h (dollar h)
                    | inr h ↦ rw h plain
                  ])
          ])
        ])
      ]
