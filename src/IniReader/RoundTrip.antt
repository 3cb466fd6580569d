-- ===== src/IniReader/RoundTrip.antt =====
-- `INIReader` of src/cIniReader.cpp reads back what is written as text.
use pquery.Prelude.{
  List, [], ◌∷◌, ◌++◌, ◌≡◌, refl, sym, ap, ◌∙◌, inl, inr, Option, none, some, Bytes, All,
  append_assoc, append-nil, pos, equal, if◌then◌else◌, Bool-cases, ◌&&◌,
}
use pquery.IniReader.Reader.{
  Reading, Entries, Configuration, assign_value, read_assignment, read_line, read_lines, initial,
  ini_reader, get, or_default,
}
use pquery.IniReader.Meaning.{header, assignment, section_line, apply, counted, read_line-Means}
use pquery.IniReader.Printer.{
  entry_line, section_header, entry_lines, config_lines, print_config, IsEntry, IsPrintable,
  write_entries, write_config, names,
}
use pquery.IniReader.Lookup.{find, get-find, find-assign_value}
use pquery.IniReader.PrintedLines.{
  section_header-SectionLine, entry_line-Means, get_lines-unlines, config_lines-InLine,
}

read_lines-append :
    (lines others : List Bytes) (r : Reading)
    → read_lines (lines ++ others) r ≡ read_lines others (read_lines lines r)
unfolding read_lines
read_lines-append [] others r = refl
read_lines-append (line ∷ lines) others r = read_lines-append lines others (read_line line r)

-- The lines have no error, and leave these sections and this map.
record Reads (r after : Reading) (sections : List Bytes) (map : Configuration) : Type 0 where
  pub same_error : after.reader.error ≡ r.reader.error
  pub has_sections : after.reader.sections ≡ sections
  pub has_map : after.reader.map ≡ map

-- The lines below a header.
entries-Reads :
    (entries : Entries) (r : Reading)
    → All IsEntry entries
    → Reads r
        (read_lines (entry_lines entries) r)
        r.reader.sections
        (write_entries r.current_section entries r.reader.map)
unfolding read_lines read_assignment
entries-Reads [] r h = record { same_error = refl; has_sections = refl; has_map = refl }
entries-Reads ((key, value) ∷ entries) r h =
    let next = apply (assignment key value) (counted r) in
    let e : read_line (entry_line key value) r ≡ next =
      read_line-Means (entry_line key value) r (entry_line-Means key value h.0) in
    let rest = entries-Reads entries next h.1 in
    let after = ap (read_lines (entry_lines entries)) e in
    record {
      same_error = ap (λ q. q.reader.error) after ∙ rest.same_error;
      has_sections = ap (λ q. q.reader.sections) after ∙ rest.has_sections;
      has_map = ap (λ q. q.reader.map) after ∙ rest.has_map;
    }

config-Reads :
    (config : Configuration) (r : Reading)
    → IsPrintable config
    → Reads r
        (read_lines (config_lines config) r)
        (r.reader.sections ++ names config)
        (write_config config r.reader.map)
unfolding read_lines
config-Reads [] r h = record {
  same_error = refl;
  has_sections = sym (append-nil r.reader.sections);
  has_map = refl;
}
config-Reads ((name, entries) ∷ config) r h =
    let begun = apply (header name) (counted r) in
    let e : read_line (section_header name) r ≡ begun =
      read_line-Means (section_header name) r
        (section_line (section_header-SectionLine name h.0)) in
    let first = entries-Reads entries begun h.1 in
    let behind = read_lines (entry_lines entries) begun in
    let rest = config-Reads config behind h.2 in
    let after : read_lines (config_lines ((name, entries) ∷ config)) r
        ≡ read_lines (config_lines config) behind =
      ap (read_lines (entry_lines entries ++ config_lines config)) e
      ∙ read_lines-append (entry_lines entries) (config_lines config) begun in
    record {
      same_error = ap (λ q. q.reader.error) after ∙ rest.same_error ∙ first.same_error;
      has_sections =
          ap (λ q. q.reader.sections) after
          ∙ rest.has_sections
          ∙ ap (λ l. l ++ names config) first.has_sections
          ∙ append_assoc r.reader.sections (name ∷ []) (names config);
      has_map =
          ap (λ q. q.reader.map) after ∙ rest.has_map ∙ ap (write_config config) first.has_map;
    }

-- What `get` finds is what was written last.
abbrev pub last_entry : Bytes → Entries → Option Bytes → Option Bytes
last_entry key [] found = found
last_entry key ((k, value) ∷ entries) found =
    last_entry key entries (if equal k key then some value else found)

abbrev pub last_value : Bytes → Bytes → Configuration → Option Bytes → Option Bytes
last_value section key [] found = found
last_value section key ((name, entries) ∷ config) found =
    last_value section key config
      (if equal name section then last_entry key entries found else found)

find-write_entries :
    (section key name : Bytes) (entries : Entries) (map : Configuration)
    → find section key (write_entries name entries map) ≡ (
        if equal name section
        then last_entry key entries (find section key map)
        else find section key map)
find-write_entries section key name [] map = elim (Bool-cases (equal name section)) [
  | inl e ↦ rw e refl
  | inr e ↦ rw e refl
]
find-write_entries section key name ((k, value) ∷ entries) map =
    let rest = find-write_entries section key name entries (assign_value name k value map) in
    let one = find-assign_value name k value section key map in
    elim (Bool-cases (equal name section)) [
      | inl e ↦
          rest
          ∙ rw e (
              ap (last_entry key entries)
                (one ∙ ap (λ b. if b && equal k key then some value else find section key map) e))
      | inr e ↦
          rest
          ∙ rw e (one ∙ ap (λ b. if b && equal k key then some value else find section key map) e)
    ]

find-write_config :
    (section key : Bytes) (config map : Configuration)
    → find section key (write_config config map)
      ≡ last_value section key config (find section key map)
find-write_config section key [] map = refl
find-write_config section key ((name, entries) ∷ config) map =
    find-write_config section key config (write_entries name entries map)
    ∙ ap (last_value section key config) (find-write_entries section key name entries map)

-- A configuration that is written as text, each section with its entries below it, is read back:
-- the constructor reports no error, the sections have their names in their order, and Get finds for
-- every key of every section what was written last for it, or the default where that is nothing or
-- empty. Names have no bracket, keys begin with no character that opens a comment or a section,
-- values are words with one white space between two of them, and none has a newline.
pub ini_reader-print_config :
    (config : Configuration)
    → IsPrintable config
    → let r = ini_reader (some (print_config config)) in
      (r.error ≡ pos 0)
      × (r.sections ≡ names config)
      × ((section key default_value : Bytes)
          → get r section key default_value
            ≡ or_default default_value (last_value section key config none))
unfolding ini_reader print_config
ini_reader-print_config config h =
    let lines = get_lines-unlines (config_lines config) (config_lines-InLine config h) in
    let done = config-Reads config initial h in
    let after = ap (λ l. read_lines l initial) lines in
    (
      ap (λ q. q.reader.error) after ∙ done.same_error,
      ap (λ q. q.reader.sections) after ∙ done.has_sections,
      λ section key default_value.
          ap (λ q. get q.reader section key default_value) after
          ∙ get-find (read_lines (config_lines config) initial) section key default_value
          ∙ ap (λ m. or_default default_value (find section key m)) done.has_map
          ∙ ap (or_default default_value) (find-write_config section key config []),
    )
