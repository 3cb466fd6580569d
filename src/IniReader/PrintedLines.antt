-- ===== src/IniReader/PrintedLines.antt =====
-- The lines of a printed configuration, as src/cIniReader.cpp takes them apart.
use pquery.Prelude.{
  ℕ, true, false, List, [], ◌∷◌, ◌++◌, ◌≡◌, refl, sym, ap, ◌∙◌, Bytes, codes, All, All-append,
  is_space, append-nil, get_lines, get_lines_from, get_lines_from-append,
}
use pquery.IniReader.Reader.{Entries, Configuration}
use pquery.IniReader.Syntax.{
  Space, SectionLine, CommentLine, OpensComment, semicolon, hash, dashes, KeyValueLine,
}
use pquery.IniReader.Meaning.{assignment, Means, key_value}
use pquery.IniReader.Printer.{
  entry_line, section_header, entry_lines, config_lines, unlines, InLine, IsName, is_mark, IsEntry,
  IsPrintable,
}

true-ne-false : ¬ (true ≡ false)
true-ne-false h = cc

-- The first character behind an indent, in a line that begins with no white space.
first_behind :
    (indent : Bytes) (c d : ℕ) (line behind : Bytes)
    → c ∷ line ≡ indent ++ d ∷ behind
    → All Space indent
    → is_space c ≡ false
    → c ≡ d
first_behind [] c d line behind e h s = cc
first_behind (b ∷ indent) c d line behind e h s =
    let same : c ≡ b = cc in absurd (true-ne-false (sym h.0 ∙ ap is_space (sym same) ∙ s))

marked :
    {comment : Bytes}
    → OpensComment comment
    → (d : ℕ) × (t : Bytes) × (comment ≡ d ∷ t) × (is_mark d ≡ true)
unfolding is_mark
marked (semicolon {s}) = (b';', s, refl, refl)
marked (hash {s}) = (b'#', s, refl, refl)
marked (dashes {s}) = (b'-', b'-' ∷ s, refl, refl)

-- Such a line is no comment and no section, if that character does not begin one.
no_comment :
    (c : ℕ) (line : Bytes) → is_space c ≡ false → is_mark c ≡ false → ¬ CommentLine (c ∷ line)
no_comment c line s m h =
    let (d, t, e, k) = marked h.opens in
    let same =
      first_behind h.indent c d line t (h.splits ∙ ap (λ u. h.indent ++ u) e) h.indent_space s in
    true-ne-false (sym k ∙ ap is_mark (sym same) ∙ m)

no_section :
    (c : ℕ) (line name : Bytes)
    → is_space c ≡ false
    → is_mark c ≡ false
    → ¬ SectionLine (c ∷ line) name
unfolding is_mark
no_section c line name s m l =
    let same = first_behind l.indent c b'[' line (name ++ b']' ∷ []) l.splits l.indent_space s in
    true-ne-false (ap is_mark (sym same) ∙ m)

pub section_header-SectionLine :
    (name : Bytes) → IsName name → SectionLine (section_header name) name
section_header-SectionLine name h = record {
  indent = [];
  splits = refl;
  indent_space = tt;
  name_ne = h.0;
  no_bracket = h.1;
}

entry_line-KeyValueLine :
    (key value : Bytes) → IsEntry (key, value) → KeyValueLine (entry_line key value) key value
unfolding is_space
entry_line-KeyValueLine key value h = record {
  indent = [];
  gap_before = codes " ";
  gap_behind = codes " ";
  trailing = [];
  splits = ap (λ v. entry_line key v) (sym (append-nil value));
  indent_space = tt;
  is_key = h.0;
  before_space = (refl, tt);
  key_ends = refl;
  behind_space = (refl, tt);
  is_value = h.3;
  trailing_space = tt;
}

pub entry_line-Means :
    (key value : Bytes) → IsEntry (key, value) → Means (entry_line key value) (assignment key value)
entry_line-Means [] value h = elim h.0 [ ]
entry_line-Means (c ∷ key) value h =
    key_value (no_comment c _ h.0.0 h.1) (λ name. no_section c _ name h.0.0 h.1)
      (entry_line-KeyValueLine (c ∷ key) value h)

-- The lines of a text.
pub get_lines-unlines :
    (lines : List Bytes) → All (All InLine) lines → get_lines (unlines lines) ≡ lines
unfolding get_lines get_lines_from
get_lines-unlines [] h = refl
get_lines-unlines (line ∷ lines) h =
    get_lines_from-append [] line (unlines lines) h.0 ∙ ap (◌∷◌ line) (get_lines-unlines lines h.1)

entry_line-InLine : (key value : Bytes) → IsEntry (key, value) → All InLine (entry_line key value)
entry_line-InLine key value h =
    All-append InLine key (codes " = " ++ value) h.2 (refl, (refl, (refl, h.4)))

entry_lines-InLine :
    (entries : Entries) → All IsEntry entries → All (All InLine) (entry_lines entries)
entry_lines-InLine [] h = tt
entry_lines-InLine ((key, value) ∷ entries) h =
    (entry_line-InLine key value h.0, entry_lines-InLine entries h.1)

pub config_lines-InLine :
    (config : Configuration) → IsPrintable config → All (All InLine) (config_lines config)
config_lines-InLine [] h = tt
config_lines-InLine ((name, entries) ∷ config) h = (
  (refl, All-append InLine name (b']' ∷ []) h.0.2 (refl, tt)),
  All-append (All InLine) (entry_lines entries) (config_lines config)
      (entry_lines-InLine entries h.1) (config_lines-InLine config h.2),
)
