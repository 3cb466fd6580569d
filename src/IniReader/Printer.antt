-- ===== src/IniReader/Printer.antt =====
-- Configurations written as text, in the form that src/cIniReader.cpp reads.
use pquery.Prelude.{ℕ, Bool, false, ◌||◌, List, [], ◌∷◌, ◌++◌, ◌≡◌, ◌≢◌, ◌==◌, Bytes, codes, All}
use pquery.IniReader.Reader.{Entries, Configuration, assign_value}
use pquery.IniReader.Syntax.{IsKey, IsValue}

abbrev pub entry_line : Bytes → Bytes → Bytes
entry_line key value = key ++ (codes " = " ++ value)

abbrev pub section_header : Bytes → Bytes
section_header name = b'[' ∷ (name ++ b']' ∷ [])

abbrev pub entry_lines : Entries → List Bytes
entry_lines [] = []
entry_lines ((key, value) ∷ entries) = entry_line key value ∷ entry_lines entries

abbrev pub config_lines : Configuration → List Bytes
config_lines [] = []
config_lines ((name, entries) ∷ config) =
    section_header name ∷ (entry_lines entries ++ config_lines config)

abbrev pub unlines : List Bytes → Bytes
unlines [] = []
unlines (line ∷ lines) = line ++ b'\n' ∷ unlines lines

-- The text of a configuration: each section with its entries below it.
unfoldable pub print_config : Configuration → Bytes
print_config config = unlines (config_lines config)

abbrev pub InLine : ℕ → Type 0
InLine c = (c == b'\n') ≡ false

-- A name with no bracket and no newline.
abbrev pub IsName : Bytes → Type 0
IsName name = (name ≢ []) × All (λ c. c ≢ b']') name × All InLine name

-- What begins a comment or a section.
unfoldable pub is_mark : ℕ → Bool
is_mark c = c == b';' || (c == b'#' || (c == b'-' || c == b'['))

abbrev pub StartsPlain : Bytes → Type 0
StartsPlain [] = Unit
StartsPlain (c ∷ key) = is_mark c ≡ false

abbrev pub IsEntry : Bytes × Bytes → Type 0
IsEntry (key, value) =
    IsKey key × StartsPlain key × All InLine key × IsValue value × All InLine value

-- A configuration that can be written in this form.
abbrev pub IsPrintable : Configuration → Type 0
IsPrintable [] = Unit
IsPrintable ((name, entries) ∷ config) = IsName name × All IsEntry entries × IsPrintable config

-- The assignments of a configuration, one after the other.
abbrev pub write_entries : Bytes → Entries → Configuration → Configuration
write_entries section [] map = map
write_entries section ((key, value) ∷ entries) map =
    write_entries section entries (assign_value section key value map)

abbrev pub write_config : Configuration → Configuration → Configuration
write_config [] map = map
write_config ((name, entries) ∷ config) map = write_config config (write_entries name entries map)

abbrev pub names : Configuration → List Bytes
names [] = []
names ((name, entries) ∷ config) = name ∷ names config
