-- ===== src/SqlFileParser/Decides.antt =====
-- The tests of src/cSqlFileParser.cpp decide the openers of the grammar.
use pquery.Prelude.{
  ℕ, ◌+◌, ◌≤◌, true, ◌&&◌, ◌||◌, [], ◌∷◌, ◌++◌, ◌≡◌, ◌≢◌, refl, sym, ap, ◌∙◌, ◌↔◌, inl, inr, arith,
  Bytes, All, ◌==◌, ltb, length, drop, take-append-drop, take-length-append, length-append,
  equal_iff, Bool-cases, is_alnum,
}
use pquery.SqlFileParser.Text.{
  is_blank, starts_line_comment, starts_block_comment, compare_at, starts_with_delimiter, tag_end,
  tag_start, dollar_quote_open_length,
}
use pquery.SqlFileParser.Bounds.{compare_at_eq}
use pquery.SqlFileParser.Grammar.{
  HasPrefix, OpensLineComment, hash, slashes, dashes, OpensBlockComment, TagChar, IsTagName,
  dollar_tag_of, OpensDollarQuote,
}

hash_at : (c : ℕ) (rest : Bytes) → c ≡ b'#' → OpensLineComment (c ∷ rest)
hash_at c rest e = rw e hash

slashes_at : (c d : ℕ) (rest : Bytes) → c ≡ b'/' → d ≡ b'/' → OpensLineComment (c ∷ d ∷ rest)
slashes_at c d rest e f = rw (e, f) slashes

dashes_at :
    (c d e : ℕ) (rest : Bytes)
    → c ≡ b'-'
    → d ≡ b'-'
    → is_blank e ≡ true
    → OpensLineComment (c ∷ d ∷ e ∷ rest)
dashes_at c d e rest p q h = rw (p, q) (dashes h)

starts_line_comment_sound :
    (c : ℕ) (rest : Bytes) → starts_line_comment c rest ≡ true → OpensLineComment (c ∷ rest)
unfolding starts_line_comment
starts_line_comment_sound c [] h = ground (arith, hash_at c [])
starts_line_comment_sound c (d ∷ []) h = ground (arith, hash_at c (d ∷ []), slashes_at c d [])
starts_line_comment_sound c (d ∷ e ∷ rest) h =
    ground (arith, hash_at c (d ∷ e ∷ rest), slashes_at c d (e ∷ rest), dashes_at c d e rest)

starts_line_comment_complete :
    {c : ℕ} {rest : Bytes} → OpensLineComment (c ∷ rest) → starts_line_comment c rest ≡ true
unfolding starts_line_comment is_blank
starts_line_comment_complete hash = refl
starts_line_comment_complete slashes = refl
starts_line_comment_complete (dashes h) = h

pub starts_line_comment_iff :
    (c : ℕ) (rest : Bytes) → (starts_line_comment c rest ≡ true) ↔ OpensLineComment (c ∷ rest)
starts_line_comment_iff c rest = (starts_line_comment_sound c rest, starts_line_comment_complete)

pub starts_block_comment_iff :
    (c : ℕ) (rest : Bytes) → (starts_block_comment c rest ≡ true) ↔ OpensBlockComment (c ∷ rest)
unfolding starts_block_comment
starts_block_comment_iff c [] = (λ h. ground arith, λ p. ground arith)
starts_block_comment_iff c (d ∷ rest) = (λ h. (rest, ground arith), λ p. ground arith)

compare_at_complete : (s rest : Bytes) → compare_at (s ++ rest) s ≡ true
unfolding compare_at
compare_at_complete s rest = (equal_iff _ s).1 (take-length-append s rest)

pub compare_at_iff : (text s : Bytes) → (compare_at text s ≡ true) ↔ HasPrefix s text
compare_at_iff text s = (sound, complete)
  where
    sound : compare_at text s ≡ true → HasPrefix s text
    sound h =
        let e = ap (λ p. p ++ drop (length s) text) (compare_at_eq text s h) in
        (drop (length s) text, sym (take-append-drop (length s) text) ∙ e)

    complete : HasPrefix s text → compare_at text s ≡ true
    complete (rest, e) = rw e (compare_at_complete s rest)

-- Of a delimiter that is not empty, as the scanner's always is.
pub starts_with_delimiter_iff :
    (text d : Bytes) → d ≢ [] → (starts_with_delimiter text d ≡ true) ↔ HasPrefix d text
unfolding starts_with_delimiter
starts_with_delimiter_iff text [] h = absurd (h refl)
starts_with_delimiter_iff text (c ∷ d) h = (sound, complete)
  where
    sound : starts_with_delimiter text (c ∷ d) ≡ true → HasPrefix (c ∷ d) text
    sound t = (compare_at_iff text (c ∷ d)).0 (ground arith)

    fits : HasPrefix (c ∷ d) text → length (c ∷ d) ≤ length text
    fits (rest, e) = omega (arith, ap length e, length-append (c ∷ d) rest)

    complete : HasPrefix (c ∷ d) text → starts_with_delimiter text (c ∷ d) ≡ true
    complete p = ground (arith, fits p, (compare_at_iff text (c ∷ d)).1 p)

-- The length of the tag that opens the text.
tag_end-append :
    (i : ℕ) (name rest : Bytes)
    → All TagChar name
    → tag_end i (name ++ b'$' ∷ rest) ≡ i + length name + 1
unfolding tag_end
tag_end-append i [] rest h = omega arith
tag_end-append i (c ∷ name) rest h = ground (arith, tag_end-append (i + 1) name rest h.1)

pub dollar_quote_open_length-append :
    (name rest : Bytes)
    → IsTagName name
    → dollar_quote_open_length b'$' (name ++ b'$' ∷ rest) ≡ length (dollar_tag_of name)
unfolding dollar_quote_open_length tag_start
dollar_quote_open_length-append [] rest h = refl
dollar_quote_open_length-append (c ∷ name) rest h =
    ground (arith, tag_end-append 2 name rest h.1, length-append name (b'$' ∷ []))

tag_end_sound :
    (i : ℕ) (rest : Bytes)
    → ltb 0 (tag_end i rest) ≡ true
    → (name : Bytes) × All TagChar name × HasPrefix (name ++ b'$' ∷ []) rest
unfolding tag_end
tag_end_sound i [] h = cc
tag_end_sound i (c ∷ rest) h = elim (Bool-cases (is_alnum c || c == b'_')) [
  | inl t ↦
      let (name, chars, p) = tag_end_sound (i + 1) rest (rw (t, tag_end) at h) in
      (c ∷ name, (ground arith, chars), (p.0, ap (◌∷◌ c) p.1))
  | inr f ↦ ([], tt, (rest, ap (λ x. x ∷ rest) (ground arith)))
]

tag_start_sound :
    (rest : Bytes)
    → ltb 0 (tag_start rest) ≡ true
    → (name : Bytes) × IsTagName name × HasPrefix (name ++ b'$' ∷ []) rest
unfolding tag_start
tag_start_sound [] h = cc
tag_start_sound (c ∷ rest) h = elim (Bool-cases (c == b'$')) [
  | inl e ↦ ([], tt, (rest, ap (λ x. x ∷ rest) (ground arith)))
  | inr f ↦
      let (name, chars, p) = tag_end_sound 2 rest (ground arith) in
      (c ∷ name, (ground arith, chars), (p.0, ap (◌∷◌ c) p.1))
]

pub dollar_quote_open_length_sound :
    (c : ℕ) (rest : Bytes)
    → (c == b'$' && ltb 0 (dollar_quote_open_length c rest)) ≡ true
    → OpensDollarQuote (c ∷ rest)
unfolding dollar_quote_open_length
dollar_quote_open_length_sound c rest h =
    let e : c ≡ b'$' = ground arith in
    let (name, chars, p) = tag_start_sound rest (ground arith) in
    (name, chars, (p.0, λ i. e i ∷ p.1 i))
