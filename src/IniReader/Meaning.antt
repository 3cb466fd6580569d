-- ===== src/IniReader/Meaning.antt =====
-- What one line of the configuration file does to `INIReader` of src/cIniReader.cpp.
use mathlib.Core.Bool.{false≢true}
use pquery.Prelude.{
  ℕ, ◌+◌, Bool, true, false, [], ◌∷◌, ◌++◌, ◌≡◌, ◌⊎◌, ◌↔◌, refl, sym, ap, ◌∙◌, Option, none, some,
  arith, inl, inr, Bytes, All, is_empty, is_space, Bool-cases, Option-cases,
}
use pquery.IniReader.Words.{skip_ws-append}
use pquery.IniReader.Line.{
  skip_ws, comment_at, is_blank_line, is_comment, try_parse_section, try_parse_key_value,
}
use pquery.IniReader.Reader.{Reading, malformed, read_assignment, read_content, read_line}
use pquery.IniReader.Syntax.{Space, SectionLine, CommentLine, KeyValueLine}
use pquery.IniReader.Assignments.{try_parse_key_value_iff}
use pquery.IniReader.Headers.{is_blank_line_iff, is_comment_iff, try_parse_section_iff}

pub data Meaning : Type 0 where
  skipped : Meaning
  header : Bytes → Meaning
  assignment : Bytes → Bytes → Meaning
  bad : Meaning

pub record IsBad (line : Bytes) : Type 0 where
  pub not_blank : ¬ All Space line
  pub not_comment : ¬ CommentLine line
  pub no_section : (name : Bytes) → ¬ SectionLine line name
  pub no_assignment : (key value : Bytes) → ¬ KeyValueLine line key value

-- The meaning of a line. What is a comment is no assignment, also with an "=" in it.
pub data Means (line : Bytes) : Meaning → Type 0 where
  blank : All Space line → Means line skipped
  comment : CommentLine line → Means line skipped
  section_line : {name : Bytes} → SectionLine line name → Means line (header name)
  key_value :
      {key value : Bytes}
      → (¬ CommentLine line)
      → ((name : Bytes) → ¬ SectionLine line name)
      → KeyValueLine line key value
      → Means line (assignment key value)
  malformed_line : IsBad line → Means line bad

-- The change of the state, once the line is counted.
abbrev pub apply : Meaning → Reading → Reading
apply skipped r = r
apply (header name) r = record r {
  current_section = name;
  reader = record r.reader { sections = r.reader.sections ++ name ∷ [] };
}
apply (assignment key value) r = read_assignment (some (key, value)) r
apply bad r = malformed r

abbrev pub counted : Reading → Reading
counted r = record r { line_no = r.line_no + 1 }

refuted : {A : Type 0} (b : Bool) → (b ≡ true) ↔ A → ¬ A → b ≡ false
refuted true h n = absurd (n (h.0 refl))
refuted false h n = refl

not_of : {A : Type 0} (b : Bool) → (b ≡ true) ↔ A → b ≡ false → ¬ A
not_of b h e a = false≢true (sym e ∙ h.1 a)

none_of : {A B : Type 0} (o : Option A) (a : A) → (o ≡ some a) ↔ B → o ≡ none → ¬ B
none_of o a h e b = let x : none ≡ some a = sym e ∙ h.1 b in cc

nil_is_blank : (line : Bytes) → is_empty line ≡ true → All Space line
nil_is_blank [] h = tt
nil_is_blank (c ∷ line) h = cc

not_empty : (line : Bytes) → (¬ All Space line) → is_empty line ≡ false
not_empty line b = elim (Bool-cases (is_empty line)) [
  | inl e ↦ absurd (b (nil_is_blank line e))
  | inr e ↦ e
]

-- Every line has a meaning.
rest_has_meaning :
    (line : Bytes)
    → (¬ All Space line)
    → (¬ CommentLine line)
    → ((name : Bytes) → ¬ SectionLine line name)
    → (m : Meaning) × Means line m
rest_has_meaning line b c s = elim (Option-cases (try_parse_key_value line)) [
  | inl n ↦ (
    bad,
    malformed_line (record {
      not_blank = b;
      not_comment = c;
      no_section = s;
      no_assignment =
          λ key value. none_of _ (key, value) (try_parse_key_value_iff line key value) n;
    }),
  )
  | inr (kv, n) ↦
      (assignment kv.0 kv.1, key_value c s ((try_parse_key_value_iff line kv.0 kv.1).0 n))
]

content_has_meaning :
    (line : Bytes) → (¬ All Space line) → (¬ CommentLine line) → (m : Meaning) × Means line m
content_has_meaning line b c = elim (Option-cases (try_parse_section line)) [
  | inl n ↦ rest_has_meaning line b c (λ name. none_of _ name (try_parse_section_iff line name) n)
  | inr (name, n) ↦ (header name, section_line ((try_parse_section_iff line name).0 n))
]

pub line_has_meaning : (line : Bytes) → (m : Meaning) × Means line m
line_has_meaning line = elim (Bool-cases (is_blank_line line)) [
  | inl b ↦ (skipped, blank ((is_blank_line_iff line).0 b))
  | inr b ↦ elim (Bool-cases (is_comment line)) [
    | inl c ↦ (skipped, comment ((is_comment_iff line).0 c))
    | inr c ↦
        content_has_meaning line (not_of _ (is_blank_line_iff line) b)
          (not_of _ (is_comment_iff line) c)
  ]
]

-- A line that is neither blank nor a comment is parsed.
read_line_parses :
    (line : Bytes) (r : Reading)
    → (¬ All Space line)
    → (¬ CommentLine line)
    → read_line line r ≡ read_content (try_parse_section line) line (counted r)
unfolding read_line
read_line_parses line r b c =
    rw (not_empty line b, refuted _ (is_blank_line_iff line) b, refuted _ (is_comment_iff line) c)

-- A line with a first character that is no white space.
starts_at :
    (line indent : Bytes) (c : ℕ) (s : Bytes)
    → line ≡ indent ++ c ∷ s
    → All Space indent
    → is_space c ≡ false
    → skip_ws line ≡ c ∷ s
starts_at line indent c s e h k = ap skip_ws e ∙ skip_ws-append indent (c ∷ s) h k

not_blank_at : (line : Bytes) (c : ℕ) (s : Bytes) → skip_ws line ≡ c ∷ s → ¬ All Space line
unfolding is_blank_line
not_blank_at line c s e h = false≢true (ap is_empty (sym e) ∙ (is_blank_line_iff line).1 h)

pub section_is_content :
    (line : Bytes) {name : Bytes}
    → SectionLine line name
    → (¬ All Space line) × (¬ CommentLine line)
unfolding is_comment is_space
section_is_content line {name} l =
    let first = starts_at line l.indent b'[' (name ++ b']' ∷ []) l.splits l.indent_space refl in
    (
      not_blank_at line _ _ first,
      λ c. false≢true (ap comment_at (sym first) ∙ (is_comment_iff line).1 c),
    )

pub key_value_not_blank :
    (line : Bytes) (key : Bytes) {value : Bytes} → KeyValueLine line key value → ¬ All Space line
key_value_not_blank line [] l = λ _. l.is_key
key_value_not_blank line (c ∷ key) l =
    not_blank_at line c _ (starts_at line l.indent c _ l.splits l.indent_space l.is_key.0)

skips :
    (line : Bytes) (r : Reading)
    → (is_blank_line line ≡ true) ⊎ (is_comment line ≡ true)
    → read_line line r ≡ counted r
unfolding read_line
skips line r h = ground arith

some_refuted : {A : Type 0} (o : Option A) → ((a : A) → ¬ (o ≡ some a)) → o ≡ none
some_refuted none h = refl
some_refuted (some a) h = absurd (h a refl)

no_section_found :
    (line : Bytes) → ((name : Bytes) → ¬ SectionLine line name) → try_parse_section line ≡ none
no_section_found line h = some_refuted _ (λ name e. h name ((try_parse_section_iff line name).0 e))

-- The code does to its state what the line means.
pub read_line-Means :
    (line : Bytes) (r : Reading) {m : Meaning}
    → Means line m
    → read_line line r ≡ apply m (counted r)
unfolding read_content
read_line-Means line r (blank h) = skips line r (inl ((is_blank_line_iff line).1 h))
read_line-Means line r (comment c) = skips line r (inr ((is_comment_iff line).1 c))
read_line-Means line r (section_line {name} l) =
    let (b, c) = section_is_content line l in
    read_line_parses line r b c
    ∙ ap (λ o. read_content o line (counted r)) ((try_parse_section_iff line name).1 l)
read_line-Means line r (key_value {key} {value} c s l) =
    read_line_parses line r (key_value_not_blank line key l) c
    ∙ ap (λ o. read_content o line (counted r)) (no_section_found line s)
    ∙ ap (λ o. read_assignment o (counted r)) ((try_parse_key_value_iff line key value).1 l)
read_line-Means line r (malformed_line b) =
    read_line_parses line r b.not_blank b.not_comment
    ∙ ap (λ o. read_content o line (counted r)) (no_section_found line b.no_section)
    ∙ ap (λ o. read_assignment o (counted r))
        (some_refuted _
          (λ kv e. b.no_assignment kv.0 kv.1 ((try_parse_key_value_iff line kv.0 kv.1).0 e)))
