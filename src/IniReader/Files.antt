-- ===== src/IniReader/Files.antt =====
-- What the constructor of `INIReader` in src/cIniReader.cpp makes of a whole file: the number of the
-- first malformed line, and the sections.
use pquery.Prelude.{
  ℕ, suc, ◌+◌, List, [], ◌∷◌, ◌++◌, ◌≡◌, refl, sym, ap, subst, ◌∙◌, some, arith, Bytes, get_lines,
  ℤ, pos, append_assoc, append-nil,
}
use pquery.IniReader.Reader.{
  Reading, read_assignment, malformed, read_line, read_lines, initial, ini_reader,
}
use pquery.IniReader.Syntax.{SectionLine}
use pquery.IniReader.Meaning.{
  Meaning, skipped, header, assignment, bad, IsBad, Means, blank, comment, section_line, key_value,
  malformed_line, apply, counted, line_has_meaning, read_line-Means, section_is_content,
}

-- The number of the first malformed line, where `n` lines stand in front; 0 if there is none.
pub data FirstBad : ℕ → List Bytes → ℤ → Type 0 where
  none_bad : {n : ℕ} → FirstBad n [] (pos 0)
  here :
      {n : ℕ} {line : Bytes} {lines : List Bytes}
      → IsBad line
      → FirstBad n (line ∷ lines) (pos (n + 1))
  later :
      {n : ℕ} {line : Bytes} {lines : List Bytes} {e : ℤ}
      → ¬ IsBad line
      → FirstBad (n + 1) lines e
      → FirstBad n (line ∷ lines) e

-- The names in the section lines, in their order.
pub data Headers : List Bytes → List Bytes → Type 0 where
  nil : Headers [] []
  named :
      {line name : Bytes} {lines names : List Bytes}
      → SectionLine line name
      → Headers lines names
      → Headers (line ∷ lines) (name ∷ names)
  unnamed :
      {line : Bytes} {lines names : List Bytes}
      → ((name : Bytes) → ¬ SectionLine line name)
      → Headers lines names
      → Headers (line ∷ lines) names

line_no-apply : (m : Meaning) (r : Reading) → (apply m r).line_no ≡ r.line_no
unfolding malformed read_assignment
line_no-apply skipped r = refl
line_no-apply (header name) r = refl
line_no-apply (assignment key value) r = refl
line_no-apply bad r = ground arith

read_line-line_no : (line : Bytes) (r : Reading) → (read_line line r).line_no ≡ r.line_no + 1
read_line-line_no line r =
    let (m, h) = line_has_meaning line in
    ap (λ q. q.line_no) (read_line-Means line r h) ∙ line_no-apply m (counted r)

-- What a line does to the number of the first malformed line.
data ErrorStep (line : Bytes) (r : Reading) : Type 0 where
  bad_line : IsBad line → read_line line r ≡ malformed (counted r) → ErrorStep line r
  good_line : ¬ IsBad line → (read_line line r).reader.error ≡ r.reader.error → ErrorStep line r

Means-ErrorStep : (line : Bytes) (r : Reading) {m : Meaning} → Means line m → ErrorStep line r
unfolding read_assignment
Means-ErrorStep line r (malformed_line b) = bad_line b (read_line-Means line r (malformed_line b))
Means-ErrorStep line r (blank h) =
    good_line (λ b. b.not_blank h) (ap (λ q. q.reader.error) (read_line-Means line r (blank h)))
Means-ErrorStep line r (comment c) =
    good_line (λ b. b.not_comment c) (ap (λ q. q.reader.error) (read_line-Means line r (comment c)))
Means-ErrorStep line r (section_line {name} l) =
    good_line (λ b. b.no_section name l)
      (ap (λ q. q.reader.error) (read_line-Means line r (section_line l)))
Means-ErrorStep line r (key_value {key} {value} c s l) =
    good_line (λ b. b.no_assignment key value l)
      (ap (λ q. q.reader.error) (read_line-Means line r (key_value c s l)))

malformed_kept : (r : Reading) (n : ℕ) → r.reader.error ≡ pos (suc n) → malformed r ≡ r
unfolding malformed
malformed_kept r n h = rw (h) refl

malformed_first :
    (r : Reading)
    → r.reader.error ≡ pos 0
    → (malformed (counted r)).reader.error ≡ pos (suc r.line_no)
unfolding malformed
malformed_first r h = rw (h) (ap pos (omega arith))

-- An error that stands is kept.
read_lines-error :
    (lines : List Bytes) (r : Reading) (n : ℕ)
    → r.reader.error ≡ pos (suc n)
    → (read_lines lines r).reader.error ≡ pos (suc n)
unfolding read_lines malformed
read_lines-error [] r n h = h
read_lines-error (line ∷ lines) r n h =
    read_lines-error lines (read_line line r) n
      (elim (Means-ErrorStep line r (line_has_meaning line).1) [
        | bad_line b e ↦ ap (λ q. q.reader.error) (e ∙ malformed_kept (counted r) n h) ∙ h
        | good_line b e ↦ e ∙ h
      ])

read_lines-FirstBad :
    (lines : List Bytes) (r : Reading)
    → r.reader.error ≡ pos 0
    → FirstBad r.line_no lines (read_lines lines r).reader.error
unfolding read_lines malformed
read_lines-FirstBad [] r h = rw (h) none_bad
read_lines-FirstBad (line ∷ lines) r h = elim (Means-ErrorStep line r (line_has_meaning line).1) [
  | bad_line b e ↦
      let first : (read_line line r).reader.error ≡ pos (suc r.line_no) =
        ap (λ q. q.reader.error) e ∙ malformed_first r h in
      subst (FirstBad r.line_no (line ∷ lines))
        (ap pos (omega arith) ∙ sym (read_lines-error lines (read_line line r) r.line_no first))
        (here b)
  | good_line b e ↦ later b (
      subst (λ n. FirstBad n lines (read_lines lines (read_line line r)).reader.error)
        (read_line-line_no line r) (read_lines-FirstBad lines (read_line line r) (e ∙ h)))
]

-- The names of the sections in `read_lines`.
data SectionStep (line : Bytes) (r : Reading) : Type 0 where
  named_line :
      {name : Bytes}
      → SectionLine line name
      → (read_line line r).reader.sections ≡ r.reader.sections ++ name ∷ []
      → SectionStep line r
  other_line :
      ((name : Bytes) → ¬ SectionLine line name)
      → (read_line line r).reader.sections ≡ r.reader.sections
      → SectionStep line r

Means-SectionStep : (line : Bytes) (r : Reading) {m : Meaning} → Means line m → SectionStep line r
unfolding malformed read_assignment
Means-SectionStep line r (malformed_line b) =
    other_line b.no_section
      (ap (λ q. q.reader.sections) (read_line-Means line r (malformed_line b)) ∙ ground arith)
Means-SectionStep line r (blank h) =
    other_line (λ name l. (section_is_content line l).0 h)
      (ap (λ q. q.reader.sections) (read_line-Means line r (blank h)))
Means-SectionStep line r (comment c) =
    other_line (λ name l. (section_is_content line l).1 c)
      (ap (λ q. q.reader.sections) (read_line-Means line r (comment c)))
Means-SectionStep line r (section_line l) =
    named_line l (ap (λ q. q.reader.sections) (read_line-Means line r (section_line l)))
Means-SectionStep line r (key_value c s l) =
    other_line s (ap (λ q. q.reader.sections) (read_line-Means line r (key_value c s l)))

read_lines-Headers :
    (lines : List Bytes) (r : Reading)
    → (names : List Bytes) × Headers lines names
      × ((read_lines lines r).reader.sections ≡ r.reader.sections ++ names)
unfolding read_lines
read_lines-Headers [] r = ([], nil, sym (append-nil _))
read_lines-Headers (line ∷ lines) r =
    let (names, h, e) = read_lines-Headers lines (read_line line r) in
    elim (Means-SectionStep line r (line_has_meaning line).1) [
      | named_line {name} l k ↦ (
        name ∷ names,
        named l h,
        e ∙ ap (λ a. a ++ names) k ∙ append_assoc r.reader.sections (name ∷ []) names,
      )
      | other_line n k ↦ (names, unnamed n h, e ∙ ap (λ a. a ++ names) k)
    ]

-- The error of a file that can be opened is the number of the first line that is neither blank, a
-- comment, a section nor an assignment, and 0 if there is none.
pub ini_reader-FirstBad :
    (content : Bytes) → FirstBad 0 (get_lines content) (ini_reader (some content)).error
unfolding ini_reader
ini_reader-FirstBad content = read_lines-FirstBad (get_lines content) initial refl

-- The sections are the names in the section lines, in their order, also behind a malformed line.
pub ini_reader-Headers :
    (content : Bytes) → Headers (get_lines content) (ini_reader (some content)).sections
unfolding ini_reader
ini_reader-Headers content =
    let (names, h, e) = read_lines-Headers (get_lines content) initial in
    subst (Headers (get_lines content)) (sym e) h
