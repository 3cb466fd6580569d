-- ===== src/IniReader/Reader.antt =====
-- The constructor of `INIReader` in src/cIniReader.cpp, and `Get`.
use pquery.Prelude.{
  ℕ, zero, ◌+◌, List, [], ◌∷◌, ◌++◌, Option, none, some, if◌then◌else◌, Bytes, is_empty, lookup,
  assign, get_lines, ℤ, pos, negsuc,
}
use pquery.IniReader.Line.{is_blank_line, is_comment, try_parse_section, try_parse_key_value}

abbrev pub Entries : Type 0
Entries = List (Bytes × Bytes)

-- Section names to keys to values.
abbrev pub Configuration : Type 0
Configuration = List (Bytes × Entries)

pub record IniReader : Type 0 where
  pub error : ℤ
  pub sections : List Bytes
  pub map : Configuration

-- The object with the local variables of its constructor.
pub record Reading : Type 0 where
  pub reader : IniReader
  pub current_section : Bytes
  pub line_no : ℕ

abbrev pub entries_of : Option Entries → Entries
entries_of none = []
entries_of (some entries) = entries

-- `map[section][key] = value`.
unfoldable pub assign_value : Bytes → Bytes → Bytes → Configuration → Configuration
unfolding lookup assign
assign_value section key value map =
    assign section (assign key value (entries_of (lookup section map))) map

-- The first malformed line is kept.
unfoldable pub malformed : Reading → Reading
malformed r = elim r.reader.error [
  | pos zero ↦ record r { reader = record r.reader { error = pos r.line_no } }
  | _ ↦ r
]

-- What is left of the loop's body for a line that is no section.
unfoldable pub read_assignment : Option (Bytes × Bytes) → Reading → Reading
unfolding malformed assign_value
read_assignment none r = malformed r
read_assignment (some (key, value)) r = record r {
  reader = record r.reader { map = assign_value r.current_section key value r.reader.map };
}

unfoldable pub read_content : Option Bytes → Bytes → Reading → Reading
unfolding read_assignment
read_content (some name) line r = record r {
  current_section = name;
  reader = record r.reader { sections = r.reader.sections ++ name ∷ [] };
}
read_content none line r = read_assignment (try_parse_key_value line) r

-- The body of the loop over the lines.
unfoldable pub read_line : Bytes → Reading → Reading
unfolding read_content
read_line line r =
    let counted = record r { line_no = r.line_no + 1 } in
    if is_empty line
    then counted
    else if is_blank_line line
    then counted
    else if is_comment line
    then counted
    else read_content (try_parse_section line) line counted

unfoldable pub read_lines : List Bytes → Reading → Reading
read_lines [] r = r
read_lines (line ∷ lines) r = read_lines lines (read_line line r)

abbrev pub empty_reader : ℤ → IniReader
empty_reader error = record { error = error; sections = []; map = [] }

abbrev pub initial : Reading
initial = record { reader = empty_reader (pos 0); current_section = []; line_no = 0 }

-- The file is its content, or `none` where it cannot be opened.
unfoldable pub ini_reader : Option Bytes → IniReader
unfolding read_lines read_line
ini_reader none = empty_reader (negsuc 0)
ini_reader (some content) = (read_lines (get_lines content) initial).reader

abbrev pub or_default : Bytes → Option Bytes → Bytes
or_default default_value none = default_value
or_default default_value (some value) = if is_empty value then default_value else value

abbrev pub get_entry : Bytes → Bytes → Option Entries → Bytes
get_entry name default_value none = default_value
get_entry name default_value (some entries) = or_default default_value (lookup name entries)

unfoldable pub get : IniReader → Bytes → Bytes → Bytes → Bytes
unfolding lookup
get r section name default_value = get_entry name default_value (lookup section r.map)
