-- ===== src/SqlFileParser/Grammar.antt =====
-- What the text of a script means, independently of the scanner of src/cSqlFileParser.cpp: which
-- pieces it is made of, and what each of them adds to the statement that it stands in.
use pquery.Prelude.{
  ℕ, Bool, true, [], ◌∷◌, ◌++◌, ◌≡◌, refl, inl, inr, ◌≢◌, ◌⊎◌, Bytes, All, is_alpha, is_alnum,
}
use pquery.SqlFileParser.Trim.{Blank}

abbrev pub HasPrefix : Bytes → Bytes → Type 0
HasPrefix p text = (rest : Bytes) × (text ≡ p ++ rest)

-- "#", "//", or "--" in front of a blank.
pub data OpensLineComment : Bytes → Type 0 where
  hash : {rest : Bytes} → OpensLineComment (b'#' ∷ rest)
  slashes : {rest : Bytes} → OpensLineComment (b'/' ∷ b'/' ∷ rest)
  dashes : {c : ℕ} {rest : Bytes} → Blank c → OpensLineComment (b'-' ∷ b'-' ∷ c ∷ rest)

abbrev pub OpensBlockComment : Bytes → Type 0
OpensBlockComment text = HasPrefix (b'/' ∷ b'*' ∷ []) text

abbrev pub TagChar : ℕ → Type 0
TagChar c = (is_alnum c ≡ true) ⊎ (c ≡ b'_')

-- Letters, digits and `_`, the first no digit.
abbrev pub IsTagName : Bytes → Type 0
IsTagName [] = Unit
IsTagName (c ∷ name) = ((is_alpha c ≡ true) ⊎ (c ≡ b'_')) × All TagChar name

abbrev pub dollar_tag_of : Bytes → Bytes
dollar_tag_of name = b'$' ∷ (name ++ b'$' ∷ [])

abbrev pub OpensDollarQuote : Bytes → Type 0
OpensDollarQuote text = (name : Bytes) × IsTagName name × HasPrefix (dollar_tag_of name) text

abbrev pub IsQuote : ℕ → Type 0
IsQuote c = (c ≡ b'\'') ⊎ (c ≡ b'"')

-- The inside of a quoted string: a backslash takes the next character with it.
pub data IsQuoted (quote : ℕ) : Bytes → Type 0 where
  nil : IsQuoted quote []
  char :
      {c : ℕ} {body : Bytes}
      → c ≢ quote
      → c ≢ b'\\'
      → IsQuoted quote body
      → IsQuoted quote (c ∷ body)
  escaped : {c : ℕ} {body : Bytes} → IsQuoted quote body → IsQuoted quote (b'\\' ∷ c ∷ body)

-- No "*/" in the text.
abbrev pub IsBlockBody : Bytes → Type 0
IsBlockBody [] = Unit
IsBlockBody (c ∷ []) = Unit
IsBlockBody (c ∷ d ∷ body) = (c ≡ b'*' → d ≢ b'/') × IsBlockBody (d ∷ body)

-- The first place of `tag` in `body ++ tag ++ …` is behind `body`.
abbrev pub IsDollarBody : Bytes → Bytes → Bytes → Type 0
IsDollarBody tag [] rest = Unit
IsDollarBody tag (c ∷ body) rest =
    (¬ HasPrefix tag (c ∷ (body ++ (tag ++ rest)))) × IsDollarBody tag body rest

-- A character that opens nothing in front of `rest`, with delimiter `d`.
pub record IsPlain (q : Bool) (d : Bytes) (c : ℕ) (rest : Bytes) : Type 0 where
  pub no_delimiter : ¬ HasPrefix d (c ∷ rest)
  pub no_line_comment : ¬ OpensLineComment (c ∷ rest)
  pub no_block_comment : ¬ OpensBlockComment (c ∷ rest)
  pub no_dollar_quote : q ≡ true → ¬ OpensDollarQuote (c ∷ rest)
  pub no_quote : ¬ IsQuote c
  pub no_backtick : c ≢ b'`'

-- `Lexes q d rest input text`: the part of `input` in front of `rest` is made of whole pieces, none
-- of them the delimiter `d`, and adds `text` to the statement. `q` allows dollar quotes.
pub data Lexes (q : Bool) (d rest : Bytes) : Bytes → Bytes → Type 0 where
  stop : Lexes q d rest rest []
  plain :
      {c : ℕ} {input text : Bytes}
      → IsPlain q d c input
      → Lexes q d rest input text
      → Lexes q d rest (c ∷ input) (c ∷ text)
  quoted :
      (quote : ℕ) (body input text : Bytes)
      → IsQuote quote
      → ¬ HasPrefix d (quote ∷ (body ++ quote ∷ input))
      → IsQuoted quote body
      → Lexes q d rest input text
      → Lexes q d rest (quote ∷ (body ++ quote ∷ input)) (quote ∷ (body ++ quote ∷ text))
  backticked :
      (body input text : Bytes)
      → ¬ HasPrefix d (b'`' ∷ (body ++ b'`' ∷ input))
      → All (λ c. c ≢ b'`') body
      → Lexes q d rest input text
      → Lexes q d rest (b'`' ∷ (body ++ b'`' ∷ input)) (b'`' ∷ (body ++ b'`' ∷ text))
  line_comment :
      (c : ℕ) (body input text : Bytes)
      → ¬ HasPrefix d (c ∷ (body ++ b'\n' ∷ input))
      → OpensLineComment (c ∷ (body ++ b'\n' ∷ input))
      → All (λ c. c ≢ b'\n') body
      → Lexes q d rest input text
      → Lexes q d rest (c ∷ (body ++ b'\n' ∷ input)) text
  block_comment :
      (body input text : Bytes)
      → ¬ HasPrefix d (b'/' ∷ b'*' ∷ (body ++ b'*' ∷ b'/' ∷ input))
      → IsBlockBody body
      → Lexes q d rest input text
      → Lexes q d rest (b'/' ∷ b'*' ∷ (body ++ b'*' ∷ b'/' ∷ input)) text
  dollar_quoted :
      (name body input text : Bytes)
      → q ≡ true
      → ¬ HasPrefix d (dollar_tag_of name ++ (body ++ (dollar_tag_of name ++ input)))
      → IsTagName name
      → IsDollarBody (dollar_tag_of name) body input
      → Lexes q d rest input text
      → Lexes q d rest
          (dollar_tag_of name ++ (body ++ (dollar_tag_of name ++ input)))
          (dollar_tag_of name ++ (body ++ (dollar_tag_of name ++ text)))

-- The characters that may begin something else than plain text, where a delimiter begins with `e`.
abbrev pub Special : ℕ → ℕ → Type 0
Special e c =
    (c ≡ e)
    ⊎ (c ≡ b'#')
    ⊎ (c ≡ b'/')
    ⊎ (c ≡ b'-')
    ⊎ (c ≡ b'$')
    ⊎ (c ≡ b'\'')
    ⊎ (c ≡ b'"')
    ⊎ (c ≡ b'`')

opens_line_comment : (e c : ℕ) (rest : Bytes) → OpensLineComment (c ∷ rest) → Special e c
opens_line_comment e _ _ hash = inr (inl refl)
opens_line_comment e _ _ slashes = inr (inr (inl refl))
opens_line_comment e _ _ (dashes b) = inr (inr (inr (inl refl)))

-- Any other character is plain, whatever follows it.
pub not-Special-IsPlain :
    (q : Bool) (e : ℕ) (d : Bytes) (c : ℕ) (rest : Bytes) → ¬ Special e c → IsPlain q (e ∷ d) c rest
not-Special-IsPlain q e d c rest h = record {
  no_delimiter = λ p. h (inl (cc (p.1)));
  no_line_comment = λ p. h (opens_line_comment e c rest p);
  no_block_comment = λ p. h (inr (inr (inl (cc (p.1)))));
  no_dollar_quote = λ _ p. h (inr (inr (inr (inr (inl (cc (p.2.1)))))));
  no_quote = λ k. h (elim k [
    | inl x ↦ inr (inr (inr (inr (inr (inl x)))))
    | inr x ↦ inr (inr (inr (inr (inr (inr (inl x))))))
  ]);
  no_backtick = λ x. h (inr (inr (inr (inr (inr (inr (inr x)))))));
}
