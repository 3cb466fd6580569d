-- ===== src/WorkerConfig/Decimals.antt =====
-- `std::to_string` as src/cWorkerConfig.cpp uses it, and `INIReader::GetInteger` of
-- src/cIniReader.cpp, which reads its texts back.
use pquery.Prelude.{
  ℕ, zero, suc, ◌+◌, ◌*◌, ◌/◌, ◌%◌, ◌<◌, false, [], ◌∷◌, ◌++◌, ◌≡◌, ◌≢◌, refl, ap, subst, ◌∙◌, inl,
  inr, none, some, arith, ltb, if◌then◌else◌, Bytes, All, All-append, length, length-append,
  is_digit, is_empty, append-nil, Bool-cases, ℤ, pos, negsuc, neg, IsInt64, drop_while,
}
use pquery.IniReader.Reader.{IniReader, Configuration, ini_reader, get, or_default}
use pquery.IniReader.Values.{ok, extract_int, get_integer, with_suffix, extract_char}
use pquery.IniReader.Numbers.{decimal, Digit, IsDigits, Extracts, unsigned, minus, pow-suc}
use pquery.IniReader.Extraction.{extract_int_iff}
use pquery.IniReader.Printer.{IsPrintable, print_config}
use pquery.IniReader.RoundTrip.{last_value, ini_reader-print_config}
use pquery.WorkerConfig.Checks.{to_string, digits_from}
use pquery.IniReader.Line.{skip_ws}

digit : (d : ℕ) → d < 10 → Digit (d + b'0')
unfolding is_digit
digit d h = ground arith

decimal-append : (ds : Bytes) (d : ℕ) → decimal (ds ++ (d + b'0') ∷ []) ≡ decimal ds * 10 + d
decimal-append [] d = omega arith
decimal-append (c ∷ ds) d =
    let more : length (ds ++ (d + b'0') ∷ []) ≡ suc (length ds) =
      length-append ds ((d + b'0') ∷ []) ∙ omega arith in
    rw (more, pow-suc (length ds), decimal-append ds d) (omega arith)

ended-IsDigits : (ds : Bytes) (d : ℕ) → All Digit ds → Digit d → IsDigits (ds ++ d ∷ [])
ended-IsDigits [] d h k = (λ e. cc, (k, tt))
ended-IsDigits (c ∷ ds) d h k = (λ e. cc, All-append Digit (c ∷ ds) (d ∷ []) h (k, tt))

digits_from-IsDigits :
    (fuel n : ℕ) → n < fuel → IsDigits (digits_from fuel n) × (decimal (digits_from fuel n) ≡ n)
unfolding digits_from
digits_from-IsDigits zero n h = absurd (omega arith)
digits_from-IsDigits (suc fuel) n h = elim (Bool-cases (ltb n 10)) [
  | inl e ↦ rw e ((λ x. cc, (digit n (ground arith), tt)), omega arith)
  | inr e ↦
      let (front, value) = digits_from-IsDigits fuel (n / 10) (ground arith) in
      rw e (
        ended-IsDigits _ _ front.1 (digit (n % 10) (omega arith)),
        decimal-append (digits_from fuel (n / 10)) (n % 10) ∙ omega (arith, value),
      )
]

extracted_pos : (ds : Bytes) (n : ℕ) → IsDigits ds → decimal ds ≡ n → Extracts ds (pos n) []
extracted_pos ds n h e =
    subst (λ m. Extracts ds (pos m) []) e
      (subst (λ s. Extracts s (pos (decimal ds)) []) (append-nil ds) (unsigned ds [] h tt))

extracted_neg :
    (ds : Bytes) (n : ℕ) → IsDigits ds → decimal ds ≡ suc n → Extracts (b'-' ∷ ds) (negsuc n) []
extracted_neg ds n h e =
    subst (λ m. Extracts (b'-' ∷ ds) (neg m) []) e
      (subst (λ s. Extracts (b'-' ∷ s) (neg (decimal ds)) []) (append-nil ds) (minus ds [] h tt))

not_empty : (ds : Bytes) → ds ≢ [] → is_empty ds ≡ false
not_empty [] h = absurd (h refl)
not_empty (c ∷ ds) h = refl

Extracts-to_string : (i : ℤ) → Extracts (to_string i) i []
unfolding to_string
Extracts-to_string (pos n) =
    let (digits, value) = digits_from-IsDigits (suc n) n (omega arith) in
    extracted_pos (digits_from (suc n) n) n digits value
Extracts-to_string (negsuc n) =
    let (digits, value) = digits_from-IsDigits (suc (suc n)) (suc n) (omega arith) in
    extracted_neg (digits_from (suc (suc n)) (suc n)) n digits value

-- The number is read back, and nothing is left.
pub extract_int-to_string : (i : ℤ) → IsInt64 i → extract_int (to_string i) ≡ some (i, [])
extract_int-to_string i h = (extract_int_iff (to_string i) i []).1 (Extracts-to_string i, h)

pub to_string_not_empty : (i : ℤ) → is_empty (to_string i) ≡ false
unfolding to_string
to_string_not_empty (pos n) = not_empty _ (digits_from-IsDigits (suc n) n (omega arith)).0.0
to_string_not_empty (negsuc n) = refl

-- A value that is a number as `to_string` writes it.
get_integer-to_string :
    (r : IniReader) (section name : Bytes) (i default_value : ℤ)
    → IsInt64 i
    → get r section name [] ≡ to_string i
    → get_integer r section name default_value ≡ ok i
unfolding get_integer with_suffix extract_char skip_ws drop_while
get_integer-to_string r section name i default_value v h =
    rw (h, to_string_not_empty i, extract_int-to_string i v) refl

-- An int64_t that to_string has written, as the last value for its key of a configuration that is
-- written as text, is what GetInteger reads there.
pub get_integer-print_config :
    (config : Configuration) (section key : Bytes) (i default_value : ℤ)
    → IsPrintable config
    → last_value section key config none ≡ some (to_string i)
    → IsInt64 i
    → get_integer (ini_reader (some (print_config config))) section key default_value ≡ ok i
get_integer-print_config config section key i default_value h e v =
    get_integer-to_string (ini_reader (some (print_config config))) section key i default_value v (
      (ini_reader-print_config config h).2 section key []
      ∙ ap (or_default []) e
      ∙ ap (λ b. if b then [] else to_string i) (to_string_not_empty i))
