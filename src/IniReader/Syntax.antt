-- ===== src/IniReader/Syntax.antt =====
-- The lines of a configuration file, described without the loops of src/cIniReader.cpp.
use pquery.Prelude.{ℕ, true, false, [], ◌∷◌, ◌++◌, ◌≡◌, ◌≢◌, Bytes, All, Stops, is_space}
use pquery.IniReader.Line.{is_key_char, is_word_char}

abbrev pub Space : ℕ → Type 0
Space c = is_space c ≡ true

-- Characters with no white space among them, at least one.
abbrev pub IsWord : Bytes → Type 0
IsWord [] = ⊥
IsWord (c ∷ w) = (is_word_char c ≡ true) × All (λ d. is_word_char d ≡ true) w

-- More words, each behind one white space.
pub data IsTail : Bytes → Type 0 where
  nil : IsTail []
  more : (c : ℕ) (w tail : Bytes) → Space c → IsWord w → IsTail tail → IsTail (c ∷ (w ++ tail))

-- Words with one white space between two of them.
pub record IsValue (value : Bytes) : Type 0 where
  pub word : Bytes
  pub tail : Bytes
  pub splits : value ≡ word ++ tail
  pub is_word : IsWord word
  pub is_tail : IsTail tail

-- A key begins with anything but white space, also with "=".
abbrev pub IsKey : Bytes → Type 0
IsKey [] = ⊥
IsKey (c ∷ k) = (is_space c ≡ false) × All (λ d. is_key_char d ≡ true) k

-- `key = value`, with white space around each part.
pub record KeyValueLine (line key value : Bytes) : Type 0 where
  pub indent : Bytes
  pub gap_before : Bytes
  pub gap_behind : Bytes
  pub trailing : Bytes
  pub splits : line ≡ indent ++ (key ++ (gap_before ++ b'=' ∷ (gap_behind ++ (value ++ trailing))))
  pub indent_space : All Space indent
  pub is_key : IsKey key
  pub before_space : All Space gap_before
  pub key_ends : Stops is_key_char (gap_before ++ b'=' ∷ (gap_behind ++ (value ++ trailing)))
  pub behind_space : All Space gap_behind
  pub is_value : IsValue value
  pub trailing_space : All Space trailing

-- `[name]`, with white space in front of it and nothing behind.
pub record SectionLine (line name : Bytes) : Type 0 where
  pub indent : Bytes
  pub splits : line ≡ indent ++ b'[' ∷ (name ++ b']' ∷ [])
  pub indent_space : All Space indent
  pub name_ne : name ≢ []
  pub no_bracket : All (λ c. c ≢ b']') name

-- A comment begins with ";", "#" or "--".
pub data OpensComment : Bytes → Type 0 where
  semicolon : {s : Bytes} → OpensComment (b';' ∷ s)
  hash : {s : Bytes} → OpensComment (b'#' ∷ s)
  dashes : {s : Bytes} → OpensComment (b'-' ∷ b'-' ∷ s)

pub record CommentLine (line : Bytes) : Type 0 where
  pub indent : Bytes
  pub comment : Bytes
  pub splits : line ≡ indent ++ comment
  pub indent_space : All Space indent
  pub opens : OpensComment comment
