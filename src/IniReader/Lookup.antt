-- ===== src/IniReader/Lookup.antt =====
-- The value that `Get` of src/cIniReader.cpp finds for a key after a whole file is read: the last
-- assignment to the key below a header of its section.
use pquery.Prelude.{
  Bool, true, false, ◌&&◌, List, [], ◌∷◌, ◌≡◌, inl, inr, refl, sym, ap, subst, ◌∙◌, Option, none,
  some, arith, if◌then◌else◌, Bytes, equal, equal_iff, lookup, assign, lookup-assign, get_lines,
  Bool-cases,
}
use pquery.IniReader.Reader.{
  Reading, Configuration, Entries, entries_of, assign_value, malformed, read_assignment, read_line,
  read_lines, initial, ini_reader, or_default, get_entry, get,
}
use pquery.IniReader.Syntax.{SectionLine, CommentLine, KeyValueLine}
use pquery.IniReader.Meaning.{
  Meaning, Means, blank, comment, section_line, key_value, malformed_line, counted,
  line_has_meaning, read_line-Means, section_is_content, key_value_not_blank,
}
use pquery.IniReader.Assignments.{try_parse_key_value_iff}

pub record Assigns (line key value : Bytes) : Type 0 where
  pub not_comment : ¬ CommentLine line
  pub no_section : (name : Bytes) → ¬ SectionLine line name
  pub assigned : KeyValueLine line key value

-- The value of a key of a section, from the value in front of the lines to that behind them. The
-- first argument is the section that the lines stand in.
pub data Value (section key : Bytes)
    : Bytes → List Bytes → Option Bytes → Option Bytes → Type 0 where
  done : {current : Bytes} {value : Option Bytes} → Value section key current [] value value
  entering :
      {current line name : Bytes} {lines : List Bytes} {old new : Option Bytes}
      → SectionLine line name
      → Value section key name lines old new
      → Value section key current (line ∷ lines) old new
  assigning :
      {line value : Bytes} {lines : List Bytes} {old new : Option Bytes}
      → Assigns line key value
      → Value section key section lines (some value) new
      → Value section key section (line ∷ lines) old new
  passing :
      {current line : Bytes} {lines : List Bytes} {old new : Option Bytes}
      → ((name : Bytes) → ¬ SectionLine line name)
      → (current ≡ section → (value : Bytes) → ¬ Assigns line key value)
      → Value section key current lines old new
      → Value section key current (line ∷ lines) old new

-- What the map holds.
abbrev pub find : Bytes → Bytes → Configuration → Option Bytes
find section key map = lookup key (entries_of (lookup section map))

entries_of_if :
    (b : Bool) (m : Entries) (o : Option Entries)
    → entries_of (if b then some m else o) ≡ (if b then m else entries_of o)
entries_of_if true m o = refl
entries_of_if false m o = refl

pub find-assign_value :
    (s k v section key : Bytes) (map : Configuration)
    → find section key (assign_value s k v map)
      ≡ (if equal s section && equal k key then some v else find section key map)
unfolding assign_value
find-assign_value s k v section key map =
    let inner = assign k v (entries_of (lookup s map)) in
    rw
      (
        lookup-assign s section inner map,
        entries_of_if (equal s section) inner (lookup section map),
      )
      (elim (Bool-cases (equal s section)) [
        | inl e ↦
            rw (e, lookup-assign k key v (entries_of (lookup s map)), (equal_iff s section).0 e)
              refl
        | inr e ↦ rw (e) refl
      ])

get_entry-or_default :
    (key default_value : Bytes) (o : Option Entries)
    → get_entry key default_value o ≡ or_default default_value (lookup key (entries_of o))
unfolding lookup
get_entry-or_default key default_value none = refl
get_entry-or_default key default_value (some entries) = refl

pub get-find :
    (r : Reading) (section key default_value : Bytes)
    → get r.reader section key default_value
      ≡ or_default default_value (find section key r.reader.map)
unfolding get
get-find r section key default_value = get_entry-or_default key default_value _

-- What a line does to the value of a key.
data ValueStep (section key line : Bytes) (r : Reading) : Type 0 where
  enters :
      {name : Bytes}
      → SectionLine line name
      → (read_line line r).current_section ≡ name
      → (read_line line r).reader.map ≡ r.reader.map
      → ValueStep section key line r
  assigns :
      {value : Bytes}
      → Assigns line key value
      → r.current_section ≡ section
      → (read_line line r).current_section ≡ r.current_section
      → find section key (read_line line r).reader.map ≡ some value
      → ValueStep section key line r
  passes :
      ((name : Bytes) → ¬ SectionLine line name)
      → (r.current_section ≡ section → (value : Bytes) → ¬ Assigns line key value)
      → (read_line line r).current_section ≡ r.current_section
      → find section key (read_line line r).reader.map ≡ find section key r.reader.map
      → ValueStep section key line r

-- A line that is no assignment and no section.
idle :
    (section key line : Bytes) (r q : Reading)
    → ((name : Bytes) → ¬ SectionLine line name)
    → ((value : Bytes) → ¬ Assigns line key value)
    → read_line line r ≡ q
    → q.current_section ≡ r.current_section
    → q.reader.map ≡ r.reader.map
    → ValueStep section key line r
idle section key line r q n a e c m =
    passes n (λ _. a) (ap (λ x. x.current_section) e ∙ c)
      (ap (λ x. find section key x.reader.map) e ∙ ap (find section key) m)

some_key : {p q : Bytes × Bytes} → some p ≡ some q → p.0 ≡ q.0
some_key {p} {q} h = cc

assigned_key :
    (line : Bytes) {key value k v : Bytes}
    → KeyValueLine line k v
    → KeyValueLine line key value
    → k ≡ key
assigned_key line {key} {value} {k} {v} l h =
    some_key
      (sym ((try_parse_key_value_iff line k v).1 l) ∙ (try_parse_key_value_iff line key value).1 h)

key_value-ValueStep :
    (section key line : Bytes) (r : Reading) {k v : Bytes}
    → (a : Assigns line k v) → ValueStep section key line r
unfolding read_assignment
key_value-ValueStep section key line r {k} {v} a =
    let e = read_line-Means line r (key_value a.not_comment a.no_section a.assigned) in
    let m =
      ap (λ x. find section key x.reader.map) e
      ∙ find-assign_value r.current_section k v section key r.reader.map in
    let c = ap (λ x. x.current_section) e in
    elim (Bool-cases (equal r.current_section section && equal k key)) [
      | inl h ↦
          let same : k ≡ key = (equal_iff k key).0 (ground arith) in
          assigns (subst (λ x. Assigns line x v) same a) ((equal_iff _ section).0 (ground arith)) c
            (m ∙ rw (h) refl)
      | inr h ↦
          passes a.no_section
            (λ s value b.
              let k1 = (equal_iff _ section).1 s in
              let k2 = (equal_iff k key).1 (assigned_key line a.assigned b.assigned) in
              ground arith)
            c (m ∙ rw (h) refl)
    ]

Means-ValueStep :
    (section key line : Bytes) (r : Reading) {m : Meaning}
    → Means line m
    → ValueStep section key line r
unfolding malformed
Means-ValueStep section key line r (blank h) =
    idle section key line r (counted r) (λ name l. (section_is_content line l).0 h)
      (λ value a. key_value_not_blank line key a.assigned h) (read_line-Means line r (blank h)) refl
      refl
Means-ValueStep section key line r (comment c) =
    idle section key line r (counted r) (λ name l. (section_is_content line l).1 c)
      (λ value a. a.not_comment c) (read_line-Means line r (comment c)) refl refl
Means-ValueStep section key line r (section_line l) =
    enters l (ap (λ x. x.current_section) (read_line-Means line r (section_line l)))
      (ap (λ x. x.reader.map) (read_line-Means line r (section_line l)))
Means-ValueStep section key line r (key_value c n l) =
    key_value-ValueStep section key line r
      (record { not_comment = c; no_section = n; assigned = l })
Means-ValueStep section key line r (malformed_line b) =
    idle section key line r (malformed (counted r)) b.no_section
      (λ value a. b.no_assignment key value a.assigned) (read_line-Means line r (malformed_line b))
      (ground arith) (ground arith)

read_lines-Value :
    (section key : Bytes) (lines : List Bytes) (r : Reading)
    → Value section key r.current_section lines
        (find section key r.reader.map)
        (find section key (read_lines lines r).reader.map)
unfolding read_lines
read_lines-Value section key [] r = done
read_lines-Value section key (line ∷ lines) r =
    let rest = read_lines-Value section key lines (read_line line r) in
    let new = find section key (read_lines lines (read_line line r)).reader.map in
    let map = (read_line line r).reader.map in
    elim (Means-ValueStep section key line r (line_has_meaning line).1) [
      | enters {name} l c m ↦ entering l (
          subst (λ s. Value section key s lines (find section key r.reader.map) new) c
            (subst (λ x. Value section key (read_line line r).current_section lines x new)
              (ap (find section key) m) rest))
      | assigns {value} a s c f ↦
          subst (λ x. Value section key x (line ∷ lines) (find section key r.reader.map) new)
            (sym s)
            (assigning a (
              subst (λ x. Value section key x lines (some value) new) (c ∙ s)
                (subst (λ x. Value section key (read_line line r).current_section lines x new) f
                  rest)))
      | passes n a c f ↦ passing n a (
          subst (λ x. Value section key x lines (find section key r.reader.map) new) c
            (subst (λ x. Value section key (read_line line r).current_section lines x new) f rest))
    ]

-- `Get` gives the value of the last assignment to the key below a header of the section, or the
-- default where there is none or it is empty.
pub get-Value :
    (content section key default_value : Bytes)
    → (value : Option Bytes) × Value section key [] (get_lines content) none value
      × (get (ini_reader (some content)) section key default_value ≡ or_default default_value value)
unfolding ini_reader lookup
get-Value content section key default_value =
    let r = read_lines (get_lines content) initial in
    (
      find section key r.reader.map,
      read_lines-Value section key (get_lines content) initial,
      get-find r section key default_value,
    )
