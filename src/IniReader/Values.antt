-- ===== src/IniReader/Values.antt =====
-- The typed getters of `INIReader` in src/cIniReader.cpp, and the enumerations of src/eTypes.hpp.
use pquery.Prelude.{
  ℕ, zero, suc, ◌+◌, ◌-◌, ◌*◌, ◌/◌, Bool, true, false, ◌&&◌, ◌||◌, not, [], ◌∷◌, ◌++◌, map, Option,
  none, some, ◌==◌, ltb, if◌then◌else◌, Bytes, codes, is_empty, equal, to_lower, is_digit, ℤ, pos,
  negsuc, neg, scale, ltb_ℤ, int64_bound,
}
use pquery.IniReader.Line.{skip_ws}
use pquery.IniReader.Reader.{IniReader, get}

pub data DbType : Type 0 where
  no_db mysql pgsql : DbType

pub data InfileType : Type 0 where
  sql genlog binlog unknown : InfileType

-- The exceptions that `GetInteger` throws, with what `what()` returns.
pub data Exception : Type 0 where
  invalid_argument overflow_error : Bytes → Exception

pub data Result {ℓ} (A : Type ℓ) : Type ℓ where
  ok : A → Result A
  throw : Exception → Result A

-- `std::transform(…, ::tolower)`.
abbrev pub lower : Bytes → Bytes
lower = map to_lower

unfoldable pub infile_type_of : Bytes → InfileType
infile_type_of s =
    if equal s (codes "sql")
    then sql
    else if equal s (codes "genlog")
    then genlog
    else if equal s (codes "binlog")
    then binlog
    else unknown

unfoldable pub get_infile_type : IniReader → Bytes → Bytes → InfileType → InfileType
unfolding infile_type_of
get_infile_type r section name default_value =
    let valstr = get r section name [] in
    if is_empty valstr then default_value else infile_type_of (lower valstr)

unfoldable pub db_type_of : Bytes → DbType
db_type_of s =
    if equal s (codes "mysql") || equal s (codes "mariadb")
    then mysql
    else if equal s (codes "pgsql") || equal s (codes "postgres") || equal s (codes "postgresql")
    then pgsql
    else no_db

unfoldable pub get_db_type : IniReader → Bytes → Bytes → DbType → DbType
unfolding db_type_of
get_db_type r section name default_value =
    let valstr = get r section name [] in
    if is_empty valstr then default_value else db_type_of (lower valstr)

unfoldable pub boolean_of : Bool → Bytes → Bool
boolean_of default_value s =
    if equal s (codes "true")
      || equal s (codes "yes")
      || equal s (codes "on")
      || equal s (codes "1")
    then true
    else if equal s (codes "false")
        || equal s (codes "no")
        || equal s (codes "off")
        || equal s (codes "0")
    then false
    else default_value

unfoldable pub get_boolean : IniReader → Bytes → Bytes → Bool → Bool
unfolding boolean_of
get_boolean r section name default_value = boolean_of default_value (lower (get r section name []))

-- `std::istringstream >> int64_t`: the digits, then the value and the rest of the stream. `seen` says
-- that there was a digit.
unfoldable pub extract_digits : Bool → ℕ → Bytes → Option (ℕ × Bytes)
unfolding is_digit
extract_digits seen n [] = if seen then some (n, []) else none
extract_digits seen n (c ∷ s) =
    let more = extract_digits true (n * 10 + (c - b'0')) s in
    if is_digit c then more else if seen then some (n, c ∷ s) else none

-- A value out of the range of `int64_t` is a failure.
abbrev pub positive : Option (ℕ × Bytes) → Option (ℤ × Bytes)
positive none = none
positive (some (n, s)) = if ltb n int64_bound then some (pos n, s) else none

abbrev pub negative : Option (ℕ × Bytes) → Option (ℤ × Bytes)
negative none = none
negative (some (n, s)) = if ltb int64_bound n then none else some (neg n, s)

abbrev pub signed : Bytes → Option (ℤ × Bytes)
signed [] = none
signed (c ∷ s) =
    if c == b'-'
    then negative (extract_digits false 0 s)
    else if c == b'+'
    then positive (extract_digits false 0 s)
    else positive (extract_digits false 0 (c ∷ s))

-- `none` where the stream fails.
unfoldable pub extract_int : Bytes → Option (ℤ × Bytes)
unfolding extract_digits
extract_int s = signed (skip_ws s)

abbrev pub first_or_zero : Bytes → ℕ
first_or_zero [] = 0
first_or_zero (c ∷ s) = c

-- `>> cpart`, which keeps its 0 at the end of the stream.
unfoldable pub extract_char : Bytes → ℕ
extract_char s = first_or_zero (skip_ws s)

-- The `switch` over `cpart`.
unfoldable pub multiplier : ℕ → Option ℕ
multiplier c =
    if c == b'k' || c == b'K'
    then some 1024
    else if c == b'm' || c == b'M'
    then some (1024 * 1024)
    else if c == b'g' || c == b'G'
    then some (1024 * 1024 * 1024)
    else if c == b't' || c == b'T'
    then some (1024 * 1024 * 1024 * 1024)
    else none

-- Division of a limit by the multiplier, which rounds towards 0.
abbrev pub max_over : ℕ → ℤ
max_over m = pos (9223372036854775807 / m)

abbrev pub min_over : ℕ → ℤ
min_over m = neg (int64_bound / m)

abbrev pub is_zero : ℤ → Bool
is_zero (pos zero) = true
is_zero (pos (suc n)) = false
is_zero (negsuc n) = false

unfoldable pub overflows : ℤ → ℕ → Bool
overflows ipart m = not (is_zero ipart) && (ltb_ℤ (max_over m) ipart || ltb_ℤ ipart (min_over m))

abbrev pub invalid_value : Bytes → Bytes → Exception
invalid_value name valstr =
    invalid_argument (codes "Invalid value for " ++ name ++ codes ": " ++ valstr)

abbrev pub out_of_range_value : Bytes → Bytes → Exception
out_of_range_value name valstr =
    overflow_error (codes "Value out of range for " ++ name ++ codes ": " ++ valstr)

unfoldable pub multiply : Bytes → Bytes → ℤ → Option ℕ → Result ℤ
unfolding overflows
multiply name valstr ipart none = throw (invalid_value name valstr)
multiply name valstr ipart (some m) =
    if overflows ipart m then throw (out_of_range_value name valstr) else ok (scale ipart m)

unfoldable pub with_suffix : Bytes → Bytes → Option (ℤ × Bytes) → Result ℤ
unfolding extract_char multiplier multiply
with_suffix name valstr none = throw (invalid_value name valstr)
with_suffix name valstr (some (ipart, s)) =
    let cpart = extract_char s in
    if cpart == 0 then ok ipart else multiply name valstr ipart (multiplier cpart)

unfoldable pub get_integer : IniReader → Bytes → Bytes → ℤ → Result ℤ
unfolding extract_int with_suffix
get_integer r section name default_value =
    let valstr = get r section name [] in
    if is_empty valstr then ok default_value else with_suffix name valstr (extract_int valstr)
