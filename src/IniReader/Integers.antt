-- ===== src/IniReader/Integers.antt =====
-- The results of `INIReader::GetInteger` in src/cIniReader.cpp, described by the text of the value.
use pquery.Prelude.{
  ℕ, zero, suc, Bool, true, false, ◌||◌, [], ◌∷◌, ◌++◌, ◌≡◌, ◌≢◌, ◌⊎◌, inl, inr, refl, sym, subst,
  ◌∙◌, Option, none, some, arith, ◌==◌, if◌then◌else◌, Bytes, All, All-append, Stops, is_empty,
  is_space, Bool-cases, Option-cases, ℤ, pos, negsuc, scale, IsInt64, ==_iff,
}
use pquery.IniReader.Line.{skip_ws}
use pquery.IniReader.Reader.{IniReader, get}
use pquery.IniReader.Values.{
  Result, ok, throw, extract_int, extract_char, multiplier, overflows, multiply, invalid_value,
  out_of_range_value, with_suffix, get_integer, first_or_zero,
}
use pquery.IniReader.Syntax.{Space}
use pquery.IniReader.Words.{skip_ws-Passes}
use pquery.IniReader.Numbers.{Extracts, none-ne-some}
use pquery.IniReader.Extraction.{extract_int_iff}

-- The first character that is no white space, 0 at the end.
pub data Follows : Bytes → ℕ → Type 0 where
  at_end : {rest : Bytes} → All Space rest → Follows rest 0
  next : (w behind : Bytes) {c : ℕ} → All Space w → is_space c ≡ false → Follows (w ++ c ∷ behind) c

-- A suffix with what it multiplies by: 1024, 1024^2, 1024^3 and 1024^4.
pub data Suffix : ℕ → ℕ → Type 0 where
  kilo : {c : ℕ} → (c ≡ b'k') ⊎ (c ≡ b'K') → Suffix c 1024
  mega : {c : ℕ} → (c ≡ b'm') ⊎ (c ≡ b'M') → Suffix c 1048576
  giga : {c : ℕ} → (c ≡ b'g') ⊎ (c ≡ b'G') → Suffix c 1073741824
  tera : {c : ℕ} → (c ≡ b't') ⊎ (c ≡ b'T') → Suffix c 1099511627776

-- What a value that is not empty gives. The text behind the suffix has no effect.
pub data Parsed (name text : Bytes) : Result ℤ → Type 0 where
  plain :
      {i : ℤ} {rest : Bytes}
      → Extracts text i rest
      → IsInt64 i
      → Follows rest 0
      → Parsed name text (ok i)
  scaled :
      {i : ℤ} {rest : Bytes} {c m : ℕ}
      → Extracts text i rest
      → IsInt64 i
      → Follows rest c
      → Suffix c m
      → IsInt64 (scale i m)
      → Parsed name text (ok (scale i m))
  too_large :
      {i : ℤ} {rest : Bytes} {c m : ℕ}
      → Extracts text i rest
      → IsInt64 i
      → Follows rest c
      → Suffix c m
      → ¬ IsInt64 (scale i m)
      → Parsed name text (throw (out_of_range_value name text))
  no_number :
      ((i : ℤ) (rest : Bytes) → IsInt64 i → ¬ Extracts text i rest)
      → Parsed name text (throw (invalid_value name text))
  no_suffix :
      {i : ℤ} {rest : Bytes} {c : ℕ}
      → Extracts text i rest
      → IsInt64 i
      → Follows rest c
      → c ≢ 0
      → ((m : ℕ) → ¬ Suffix c m)
      → Parsed name text (throw (invalid_value name text))

first-Follows : (w t : Bytes) → All Space w → Stops is_space t → Follows (w ++ t) (first_or_zero t)
first-Follows w [] h k = at_end (All-append Space w [] h tt)
first-Follows w (c ∷ t) h k = next w t h k

extract_char-Follows : (s : Bytes) → Follows s (extract_char s)
unfolding extract_char
extract_char-Follows s =
    let p = skip_ws-Passes s in
    subst (λ x. Follows x (first_or_zero (skip_ws s))) (sym p.splits)
      (first-Follows p.passed (skip_ws s) p.holds p.stops)

-- One `case` of the `switch`.
case_of :
    {m : ℕ} (x : ℕ) (b : Bool) (o : Option ℕ)
    → (if b then some x else o) ≡ some m
    → ((b ≡ true) × (x ≡ m)) ⊎ (o ≡ some m)
case_of x true o h = inl (refl, cc)
case_of x false o h = inr h

multiplier_sound : (c m : ℕ) → multiplier c ≡ some m → Suffix c m
unfolding multiplier
multiplier_sound c m h = elim (case_of 1024 (c == b'k' || c == b'K') _ h) [
  | inl (b, e) ↦ subst (Suffix c) e (kilo (ground arith))
  | inr h ↦ elim (case_of 1048576 (c == b'm' || c == b'M') _ h) [
    | inl (b, e) ↦ subst (Suffix c) e (mega (ground arith))
    | inr h ↦ elim (case_of 1073741824 (c == b'g' || c == b'G') _ h) [
      | inl (b, e) ↦ subst (Suffix c) e (giga (ground arith))
      | inr h ↦ elim (case_of 1099511627776 (c == b't' || c == b'T') none h) [
        | inl (b, e) ↦ subst (Suffix c) e (tera (ground arith))
        | inr h ↦ absurd (none-ne-some none refl h)
      ]
    ]
  ]
]

multiplier_complete : {c m : ℕ} → Suffix c m → multiplier c ≡ some m
unfolding multiplier
multiplier_complete (kilo h) = ground arith
multiplier_complete (mega h) = ground arith
multiplier_complete (giga h) = ground arith
multiplier_complete (tera h) = ground arith

Suffix_cases :
    {c m : ℕ} → Suffix c m → (m ≡ 1024) ⊎ ((m ≡ 1048576) ⊎ ((m ≡ 1073741824) ⊎ (m ≡ 1099511627776)))
Suffix_cases (kilo h) = inl refl
Suffix_cases (mega h) = inr (inl refl)
Suffix_cases (giga h) = inr (inr (inl refl))
Suffix_cases (tera h) = inr (inr (inr refl))

Fits : ℤ → ℕ → Type 0
Fits i m =
    (overflows i m ≡ true → ¬ IsInt64 (scale i m)) × (overflows i m ≡ false → IsInt64 (scale i m))

Fits-any :
    (m : ℕ) (i : ℤ)
    → (m ≡ 1024) ⊎ ((m ≡ 1048576) ⊎ ((m ≡ 1073741824) ⊎ (m ≡ 1099511627776)))
    → Fits i m
unfolding overflows Fits
Fits-any m (pos zero) v = (λ h. ground arith, λ h. ground arith)
Fits-any m (pos (suc n)) v = (λ h (a, b). ground arith, λ h. (ground arith, ground arith))
Fits-any m (negsuc n) v = (λ h (a, b). ground arith, λ h. (ground arith, ground arith))

scaled_or_too_large :
    (name text : Bytes) {i : ℤ} {rest : Bytes} {c m : ℕ}
    → Extracts text i rest
    → IsInt64 i
    → Follows rest c
    → Suffix c m
    → Parsed name text (multiply name text i (some m))
unfolding multiply Fits
scaled_or_too_large name text {i} {rest} {c} {m} e v f s =
    let (large, fits) = Fits-any m i (Suffix_cases s) in
    elim (Bool-cases (overflows i m)) [
      | inl h ↦ rw (h) (too_large e v f s (large h))
      | inr h ↦ rw (h) (scaled e v f s (fits h))
    ]

suffixed :
    (name text : Bytes) {i : ℤ} {rest : Bytes}
    → Extracts text i rest
    → IsInt64 i
    → Parsed name text (with_suffix name text (some (i, rest)))
unfolding with_suffix multiply
suffixed name text {i} {rest} e v =
    let f = extract_char-Follows rest in
    let c = extract_char rest in
    elim (Bool-cases (c == 0)) [
      | inl h ↦ rw (h) (plain e v (subst (Follows rest) ((==_iff c 0).0 h) f))
      | inr h ↦ rw (h) (elim (Option-cases (multiplier c)) [
        | inl n ↦
            rw (n)
              (no_suffix e v f (ground arith) (λ m s. none-ne-some _ n (multiplier_complete s)))
        | inr (m, n) ↦ rw (n) (scaled_or_too_large name text e v f (multiplier_sound c m n))
      ])
    ]

with_suffix-Parsed :
    (name text : Bytes) → Parsed name text (with_suffix name text (extract_int text))
unfolding with_suffix
with_suffix-Parsed name text = elim (Option-cases (extract_int text)) [
  | inl n ↦
      rw (n) (no_number (λ i rest v e. none-ne-some _ n ((extract_int_iff text i rest).1 (e, v))))
  | inr ((i, rest), n) ↦
      let (e, v) = (extract_int_iff text i rest).0 n in rw (n) (suffixed name text e v)
]

value-Parsed :
    (name text : Bytes) (default_value : ℤ)
    → let result =
        if is_empty text then ok default_value else with_suffix name text (extract_int text) in
      ((text ≡ []) × (result ≡ ok default_value)) ⊎ ((text ≢ []) × Parsed name text result)
value-Parsed name [] default_value = inl (refl, refl)
value-Parsed name (c ∷ text) default_value = inr (λ e. cc, with_suffix-Parsed name (c ∷ text))

-- GetInteger gives the default exactly where there is no value, or an empty one. Else its result
-- is what the text stands for: the number, the number times 1024, 1024^2, 1024^3 or 1024^4, an
-- overflow error exactly where that product is no int64_t, or an invalid value. The text behind
-- the suffix has no effect.
pub get_integer-Parsed :
    (r : IniReader) (section name : Bytes) (default_value : ℤ)
    → let text = get r section name [] in
      ((text ≡ []) × (get_integer r section name default_value ≡ ok default_value))
      ⊎ ((text ≢ []) × Parsed name text (get_integer r section name default_value))
unfolding get_integer
get_integer-Parsed r section name default_value =
    value-Parsed name (get r section name []) default_value

same_ok : {A : Type 0} {a b : A} → ok a ≡ ok b → a ≡ b
same_ok h = cc

Parsed-IsInt64 :
    {name text : Bytes} {v : ℤ} (x : Result ℤ) → Parsed name text x → x ≡ ok v → IsInt64 v
Parsed-IsInt64 _ (plain e b f) h = subst IsInt64 (same_ok h) b
Parsed-IsInt64 _ (scaled e a f s b) h = subst IsInt64 (same_ok h) b
Parsed-IsInt64 _ (too_large e a f s n) h = absurd cc
Parsed-IsInt64 _ (no_number n) h = absurd cc
Parsed-IsInt64 _ (no_suffix e a f n m) h = absurd cc

-- An integer that `GetInteger` returns is one of `int64_t`, if the default is.
pub get_integer-IsInt64 :
    (r : IniReader) (section name : Bytes) (default_value v : ℤ)
    → IsInt64 default_value
    → get_integer r section name default_value ≡ ok v
    → IsInt64 v
get_integer-IsInt64 r section name default_value v d h =
    elim (get_integer-Parsed r section name default_value) [
      | inl (_, e) ↦ subst IsInt64 (same_ok (sym e ∙ h)) d
      | inr (_, p) ↦ Parsed-IsInt64 _ p h
    ]
