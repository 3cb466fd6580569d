-- ===== src/IniReader/Examples.antt =====
-- Runs of the reader of src/cIniReader.cpp, and its theorems at concrete inputs.
use Prim.Native.String.{String}
use pquery.Prelude.{
  to_lower, true, false, [], ◌∷◌, ◌++◌, ◌≡◌, ◌≢◌, ◌⊎◌, ◌↔◌, refl, arith, Option, none, some, Bytes,
  codes, map, get_lines, equal, lookup, ℤ, pos, negsuc, ℕ, is_space,
}
use pquery.IniReader.Line.{
  is_blank_line, is_comment, try_parse_section, try_parse_key_value, is_word_char,
}
use pquery.IniReader.Reader.{IniReader, ini_reader, get, or_default, Configuration}
use pquery.IniReader.Values.{
  extract_int, multiplier, overflows, extract_char, Result, ok, throw, mysql, pgsql, get_integer,
  get_boolean, get_db_type, out_of_range_value, invalid_value,
}
use pquery.IniReader.Syntax.{SectionLine, KeyValueLine, IsValue, nil, more}
use pquery.IniReader.Headers.{try_parse_section_iff}
use pquery.IniReader.Assignments.{try_parse_key_value_iff}
use pquery.IniReader.Files.{FirstBad, Headers, ini_reader-FirstBad, ini_reader-Headers}
use pquery.IniReader.Lookup.{Value, get-Value}
use pquery.IniReader.Integers.{Parsed, get_integer-Parsed}
use pquery.IniReader.Printer.{print_config, IsPrintable, is_mark, names}
use pquery.IniReader.RoundTrip.{last_value, ini_reader-print_config}

abbrev config : Bytes
config =
    codes "# servers\n\n[master]\nlogdir = /tmp\n[node0]\nport=0x\n  threads = 10 K \n"
    ++ codes
        "this is wrong\ndbtype = Postgres\nrun = YES\nlimit = 8388608T\nmin = -8388608T\n[node1] ; bad\n"

reader : IniReader
unfolding ini_reader get_lines is_blank_line is_comment try_parse_section try_parse_key_value equal
reader = ini_reader (some config)

reader_error : reader.error ≡ pos 8
unfolding reader
reader_error = refl

reader_sections : reader.sections ≡ map codes ("master" ∷ "node0" ∷ [])
unfolding reader
reader_sections = refl

abbrev node0 : Bytes
node0 = codes "node0"

integer : String → Result ℤ
unfolding reader get_integer get lookup extract_int multiplier overflows extract_char
integer name = get_integer reader node0 (codes name) (pos 7)

integer_suffix : integer "threads" ≡ ok (pos 10240)
unfolding integer
integer_suffix = refl

-- A number is read up to the first character that is no digit.
integer_hex : integer "port" ≡ throw (invalid_value (codes "port") (codes "0x"))
unfolding integer
integer_hex = refl

integer_too_large : integer "limit" ≡ throw (out_of_range_value (codes "limit") (codes "8388608T"))
unfolding integer
integer_too_large = refl

integer_smallest : integer "min" ≡ ok (negsuc 9223372036854775807)
unfolding integer
integer_smallest = refl

integer_default : integer "none" ≡ ok (pos 7)
unfolding integer
integer_default = refl

boolean_case : get_boolean reader node0 (codes "run") false ≡ true
unfolding reader get_boolean get lookup to_lower
boolean_case = refl

db_type_case : get_db_type reader node0 (codes "dbtype") mysql ≡ pgsql
unfolding reader get_db_type get lookup to_lower
db_type_case = refl

try_parse_section_iff_example :
    (try_parse_section (codes "  [node 0]") ≡ some (codes "node 0"))
    ↔ SectionLine (codes "  [node 0]") (codes "node 0")
try_parse_section_iff_example = try_parse_section_iff (codes "  [node 0]") (codes "node 0")

try_parse_key_value_iff_example :
    (try_parse_key_value (codes "a= b c ") ≡ some (codes "a", codes "b c"))
    ↔ KeyValueLine (codes "a= b c ") (codes "a") (codes "b c")
try_parse_key_value_iff_example =
    try_parse_key_value_iff (codes "a= b c ") (codes "a") (codes "b c")

ini_reader-FirstBad_example : FirstBad 0 (get_lines config) (ini_reader (some config)).error
ini_reader-FirstBad_example = ini_reader-FirstBad config

ini_reader-Headers_example : Headers (get_lines config) (ini_reader (some config)).sections
ini_reader-Headers_example = ini_reader-Headers config

get-Value_example :
    (value : Option Bytes) × Value node0 (codes "port") [] (get_lines config) none value
    × (get (ini_reader (some config)) node0 (codes "port") [] ≡ or_default [] value)
get-Value_example = get-Value config node0 (codes "port") []

get_integer-Parsed_example :
    let text = get (ini_reader (some config)) node0 (codes "limit") [] in
    ((text ≡ [])
      × (get_integer (ini_reader (some config)) node0 (codes "limit") (pos 7) ≡ ok (pos 7)))
    ⊎ ((text ≢ [])
        × Parsed
            (codes "limit")
            text
            (get_integer (ini_reader (some config)) node0 (codes "limit") (pos 7)))
get_integer-Parsed_example =
    get_integer-Parsed (ini_reader (some config)) node0 (codes "limit") (pos 7)

-- The key of the second section is written twice.
abbrev printable : Configuration
printable =
    (codes "a", (codes "k", codes "1") ∷ [])
    ∷ (codes "b", (codes "k", codes "2 x") ∷ (codes "k", codes "3") ∷ [])
    ∷ []

printed_text : print_config printable ≡ codes "[a]\nk = 1\n[b]\nk = 2 x\nk = 3\n"
unfolding print_config
printed_text = refl

one_word : (c : ℕ) → is_word_char c ≡ true → IsValue (c ∷ [])
one_word c h = record { word = c ∷ []; tail = []; splits = refl; is_word = (h, tt); is_tail = nil }

two_words : IsValue (codes "2 x")
unfolding is_space
two_words = record {
  word = codes "2";
  tail = codes " x";
  splits = refl;
  is_word = (refl, tt);
  is_tail = more b' ' (codes "x") [] refl (refl, tt) nil;
}

printable-IsPrintable : IsPrintable printable
unfolding is_space is_mark
printable-IsPrintable = (
  (λ e. cc, (omega arith, tt), (refl, tt)),
  (((refl, tt), refl, (refl, tt), one_word b'1' refl, (refl, tt)), tt),
  (
    (λ e. cc, (omega arith, tt), (refl, tt)),
    (
      ((refl, tt), refl, (refl, tt), two_words, (refl, (refl, (refl, tt)))),
      (((refl, tt), refl, (refl, tt), one_word b'3' refl, (refl, tt)), tt),
    ),
    tt,
  ),
)

ini_reader-print_config_example :
    let r = ini_reader (some (print_config printable)) in
    (r.error ≡ pos 0)
    × (r.sections ≡ names printable)
    × ((section key default_value : Bytes)
        → get r section key default_value
          ≡ or_default default_value (last_value section key printable none))
ini_reader-print_config_example = ini_reader-print_config printable printable-IsPrintable

last_written : last_value (codes "b") (codes "k") printable none ≡ some (codes "3")
unfolding equal
last_written = refl
