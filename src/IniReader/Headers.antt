-- ===== src/IniReader/Headers.antt =====
-- `tryParseSection`, `isBlank` and `isComment` of src/cIniReader.cpp against the described lines.
use pquery.Prelude.{
  ℕ, true, false, [], ◌∷◌, ◌++◌, ◌≡◌, ◌≢◌, ◌↔◌, refl, sym, ap, subst, ◌∙◌, Option, none, some,
  arith, inl, inr, ◌==◌, Bytes, All, Stops, append-nil, is_space, is_empty, Bool-cases,
}
use pquery.IniReader.Line.{
  skip_ws, is_blank_line, comment_at, is_comment, put_before, cut_at, section_name, section_at,
  try_parse_section,
}
use pquery.IniReader.Syntax.{Space, SectionLine, OpensComment, semicolon, hash, dashes, CommentLine}
use pquery.IniReader.Words.{skip_ws-append, skip_ws-Passes}

is_empty_nil : (s : Bytes) → is_empty s ≡ true → s ≡ []
is_empty_nil [] h = refl
is_empty_nil (c ∷ s) h = cc

cut_at-append : (c : ℕ) (a b : Bytes) → All (λ d. d ≢ c) a → cut_at c (a ++ c ∷ b) ≡ some (a, b)
unfolding cut_at
cut_at-append c [] b h = ground arith
cut_at-append c (d ∷ a) b h = ground (arith, cut_at-append c a b h.1, h.0)

record Cut (c : ℕ) (s a b : Bytes) : Type 0 where
  splits : s ≡ a ++ c ∷ b
  none_before : All (λ d. d ≢ c) a

put_before-eq-some :
    (d : ℕ) (o : Option (Bytes × Bytes)) {a b : Bytes}
    → put_before d o ≡ some (a, b)
    → (a' : Bytes) × (a ≡ d ∷ a') × (o ≡ some (a', b))
put_before-eq-some d none e = absurd (cc)
put_before-eq-some d (some (a', b')) e = (a', cc, cc)

cut_at-Cut : (c : ℕ) (s : Bytes) {a b : Bytes} → cut_at c s ≡ some (a, b) → Cut c s a b
unfolding cut_at
cut_at-Cut c [] e = absurd (cc)
cut_at-Cut c (d ∷ s) {a} {b} e = elim (Bool-cases (d == c)) [
  | inl h ↦
      let first : ◌≡◌ {A = Option (Bytes × Bytes)} (some ([], s)) (some (a, b)) =
        rw (h, cut_at) at e in
      let nothing : [] ≡ a = cc in
      let here : d ≡ c = ground arith in
      let rest : s ≡ b = cc in
      subst (λ x. Cut c (d ∷ s) x b) nothing
        (record { splits = λ i. here i ∷ rest i; none_before = tt })
  | inr h ↦
      let (a', a_is, found) = put_before-eq-some d (cut_at c s) (rw (h, cut_at) at e) in
      let r = cut_at-Cut c s found in
      subst (λ x. Cut c (d ∷ s) x b) (sym a_is)
        (record { splits = ap (◌∷◌ d) r.splits; none_before = (ground arith, r.none_before) })
]

section_name-eq-some :
    (o : Option (Bytes × Bytes)) {name : Bytes}
    → section_name o ≡ some name
    → (o ≡ some (name, [])) × (name ≢ [])
section_name-eq-some none e = absurd (cc)
section_name-eq-some (some ([], b)) e = absurd (cc)
section_name-eq-some (some (c ∷ a, [])) e = (cc, λ k. cc)
section_name-eq-some (some (c ∷ a, d ∷ b)) e = absurd (cc)

section_at_sound :
    (indent t : Bytes) {name : Bytes}
    → All Space indent
    → section_at t ≡ some name
    → SectionLine (indent ++ t) name
section_at_sound indent [] h e = absurd (cc)
section_at_sound indent (c ∷ t) {name} h e = elim (Bool-cases (c == b'[')) [
  | inl k ↦
      let (found, ne) = section_name-eq-some (cut_at b']' t) (rw k at e) in
      let r = cut_at-Cut b']' t found in
      let bracket : c ≡ b'[' = ground arith in
      record {
        indent = indent;
        splits = λ i. indent ++ bracket i ∷ r.splits i;
        indent_space = h;
        name_ne = ne;
        no_bracket = r.none_before;
      }
  | inr k ↦ absurd (let x : none ≡ some name = rw k at e in cc)
]

try_parse_section_sound :
    {line name : Bytes} → try_parse_section line ≡ some name → SectionLine line name
unfolding try_parse_section
try_parse_section_sound {line} {name} e =
    let p = skip_ws-Passes line in
    subst (λ x. SectionLine x name) (sym p.splits)
      (section_at_sound p.passed (skip_ws line) p.holds e)

bracket_stops : is_space b'[' ≡ false
unfolding is_space
bracket_stops = refl

section_name_found : (name : Bytes) → name ≢ [] → section_name (some (name, [])) ≡ some name
section_name_found [] h = absurd (h refl)
section_name_found (c ∷ name) h = refl

try_parse_section_complete :
    {line name : Bytes} → SectionLine line name → try_parse_section line ≡ some name
unfolding try_parse_section
try_parse_section_complete {line} {name} l =
    ap try_parse_section l.splits
    ∙ ap section_at
        (skip_ws-append l.indent (b'[' ∷ (name ++ b']' ∷ [])) l.indent_space bracket_stops)
    ∙ ap section_name (cut_at-append b']' name [] l.no_bracket)
    ∙ section_name_found name l.name_ne

-- tryParseSection accepts exactly the lines [name], with white space in front and nothing behind,
-- where the name is not empty and has no closing bracket.
pub try_parse_section_iff :
    (line name : Bytes) → (try_parse_section line ≡ some name) ↔ SectionLine line name
try_parse_section_iff line name = (try_parse_section_sound, try_parse_section_complete)

is_blank_line_sound : (line : Bytes) → is_blank_line line ≡ true → All Space line
unfolding is_blank_line
is_blank_line_sound line h =
    let p = skip_ws-Passes line in
    let nothing : skip_ws line ≡ [] = is_empty_nil (skip_ws line) h in
    subst (All Space) (sym (p.splits ∙ ap (λ x. p.passed ++ x) nothing ∙ append-nil p.passed))
      p.holds

is_blank_line_complete : (line : Bytes) → All Space line → is_blank_line line ≡ true
unfolding is_blank_line
is_blank_line_complete line h =
    ap is_empty (ap skip_ws (sym (append-nil line)) ∙ skip_ws-append line [] h tt)

pub is_blank_line_iff : (line : Bytes) → (is_blank_line line ≡ true) ↔ All Space line
is_blank_line_iff line = (is_blank_line_sound line, is_blank_line_complete line)

semicolon_at : (c : ℕ) (s : Bytes) → c ≡ b';' → OpensComment (c ∷ s)
semicolon_at c s e = rw e semicolon

hash_at : (c : ℕ) (s : Bytes) → c ≡ b'#' → OpensComment (c ∷ s)
hash_at c s e = rw e hash

dashes_at : (c d : ℕ) (s : Bytes) → c ≡ b'-' → d ≡ b'-' → OpensComment (c ∷ d ∷ s)
dashes_at c d s e f = rw (e, f) dashes

comment_at_sound : (s : Bytes) → comment_at s ≡ true → OpensComment s
comment_at_sound [] h = absurd (cc)
comment_at_sound (c ∷ []) h = ground (arith, semicolon_at c [], hash_at c [])
comment_at_sound (c ∷ d ∷ s) h =
    ground (arith, semicolon_at c (d ∷ s), hash_at c (d ∷ s), dashes_at c d s)

comment_at_complete : {s : Bytes} → OpensComment s → (comment_at s ≡ true) × Stops is_space s
unfolding is_space
comment_at_complete semicolon = (refl, refl)
comment_at_complete hash = (refl, refl)
comment_at_complete dashes = (refl, refl)

pub is_comment_iff : (line : Bytes) → (is_comment line ≡ true) ↔ CommentLine line
unfolding is_comment
is_comment_iff line = (sound, complete)
  where
    sound : is_comment line ≡ true → CommentLine line
    sound h =
        let p = skip_ws-Passes line in
        record {
          indent = p.passed;
          comment = skip_ws line;
          splits = p.splits;
          indent_space = p.holds;
          opens = comment_at_sound (skip_ws line) h;
        }

    complete : CommentLine line → is_comment line ≡ true
    complete l =
        let (opens, stops) = comment_at_complete l.opens in
        ap is_comment l.splits
        ∙ ap comment_at (skip_ws-append l.indent l.comment l.indent_space stops)
        ∙ opens
