-- ===== src/IniReader/Extraction.antt =====
-- The extraction of a number in `INIReader::GetInteger` of src/cIniReader.cpp takes exactly what
-- `Extracts` describes, where the number is one of `int64_t`.
use pquery.Prelude.{
  ℕ, false, [], ◌∷◌, ◌++◌, ◌≡◌, ◌≢◌, ◌↔◌, inl, inr, refl, sym, ap, subst, ◌∙◌, some, arith, ◌==◌,
  Bytes, All, is_digit, is_space, drop_while, Bool-cases, ℤ, pos, neg, IsInt64, ==_iff,
}
use pquery.IniReader.Line.{skip_ws}
use pquery.IniReader.Values.{extract_digits, positive, negative, signed, extract_int}
use pquery.IniReader.Syntax.{Space}
use pquery.IniReader.Words.{skip_ws-Passes}
use pquery.IniReader.Numbers.{
  decimal, Digit, IsDigits, Extracts, unsigned, plus, minus, space, none-ne-some, Digits,
  extract_digits-Digits, extract_digits-IsDigits, positive-Positive, negative-Negative,
  positive_fits, negative_fits,
}

Extracts-pos :
    (s : Bytes) {i : ℤ} {n : ℕ} {rest : Bytes}
    → Digits s n rest
    → i ≡ pos n
    → Extracts s i rest × Extracts (b'+' ∷ s) i rest
Extracts-pos s {i} {n} {rest} d e =
    rw (d.splits, e, d.value)
      (unsigned d.ds rest d.is_digits d.stops, plus d.ds rest d.is_digits d.stops)

Extracts-neg :
    (s : Bytes) {i : ℤ} {n : ℕ} {rest : Bytes}
    → Digits s n rest
    → i ≡ neg n
    → Extracts (b'-' ∷ s) i rest
Extracts-neg s {i} {n} {rest} d e = rw (d.splits, e, d.value) (minus d.ds rest d.is_digits d.stops)

positive_sound :
    (s : Bytes) {i : ℤ} {rest : Bytes}
    → positive (extract_digits false 0 s) ≡ some (i, rest)
    → (Extracts s i rest × Extracts (b'+' ∷ s) i rest) × IsInt64 i
positive_sound s h =
    let p = positive-Positive (extract_digits false 0 s) h in
    (
      Extracts-pos s (extract_digits-Digits s p.n _ p.found) p.value,
      subst IsInt64 (sym p.value) p.in_range,
    )

negative_sound :
    (s : Bytes) {i : ℤ} {rest : Bytes}
    → negative (extract_digits false 0 s) ≡ some (i, rest)
    → Extracts (b'-' ∷ s) i rest × IsInt64 i
negative_sound s h =
    let p = negative-Negative (extract_digits false 0 s) h in
    (
      Extracts-neg s (extract_digits-Digits s p.n _ p.found) p.value,
      subst IsInt64 (sym p.value) p.in_range,
    )

signed_plain :
    (c : ℕ) (s : Bytes)
    → c ≢ b'-'
    → c ≢ b'+'
    → signed (c ∷ s) ≡ positive (extract_digits false 0 (c ∷ s))
signed_plain c s h k = ground arith

signed_sound :
    (s : Bytes) {i : ℤ} {rest : Bytes} → signed s ≡ some (i, rest) → Extracts s i rest × IsInt64 i
signed_sound [] h = absurd (none-ne-some _ refl h)
signed_sound (c ∷ s) {i} {rest} h = elim (Bool-cases (c == b'-')) [
  | inl e ↦
      let first : c ≡ b'-' = (==_iff c b'-').0 e in
      rw (first) (negative_sound s (subst (λ x. signed (x ∷ s) ≡ some (i, rest)) first h))
  | inr e ↦ elim (Bool-cases (c == b'+')) [
    | inl f ↦
        let first : c ≡ b'+' = (==_iff c b'+').0 f in
        let r = positive_sound s (subst (λ x. signed (x ∷ s) ≡ some (i, rest)) first h) in
        rw (first) (r.0.1, r.1)
    | inr f ↦
        let r = positive_sound (c ∷ s) (sym (signed_plain c s (ground arith) (ground arith)) ∙ h) in
        (r.0.0, r.1)
  ]
]

Extracts-append :
    (w s : Bytes) {i : ℤ} {rest : Bytes}
    → All Space w
    → Extracts s i rest
    → Extracts (w ++ s) i rest
Extracts-append [] s h e = e
Extracts-append (c ∷ w) s h e = space h.0 (Extracts-append w s h.1 e)

extract_int_sound :
    (s : Bytes) {i : ℤ} {rest : Bytes}
    → extract_int s ≡ some (i, rest)
    → Extracts s i rest × IsInt64 i
unfolding extract_int
extract_int_sound s {i} {rest} h =
    let p = skip_ws-Passes s in
    let (e, r) = signed_sound (skip_ws s) h in
    (
      subst (λ x. Extracts x i rest) (sym p.splits)
          (Extracts-append p.passed (skip_ws s) p.holds e),
      r,
    )

Digit-no_sign : (c : ℕ) → Digit c → (c ≢ b'-') × (c ≢ b'+')
unfolding is_digit
Digit-no_sign c h = (λ e. ground arith, λ e. ground arith)

Digit-no_space : (c : ℕ) → Digit c → is_space c ≡ false
unfolding is_digit is_space
Digit-no_space c h = ground arith

signed_digits :
    (ds rest : Bytes)
    → IsDigits ds
    → signed (ds ++ rest) ≡ positive (extract_digits false 0 (ds ++ rest))
signed_digits [] rest h = absurd (h.0 refl)
signed_digits (c ∷ ds) rest h =
    signed_plain c (ds ++ rest) (Digit-no_sign c h.1.0).0 (Digit-no_sign c h.1.0).1

skip_ws_digits : (ds rest : Bytes) → IsDigits ds → skip_ws (ds ++ rest) ≡ ds ++ rest
unfolding skip_ws drop_while
skip_ws_digits [] rest h = absurd (h.0 refl)
skip_ws_digits (c ∷ ds) rest h = rw (Digit-no_space c h.1.0) refl

extract_int_complete :
    {s rest : Bytes} {i : ℤ} → Extracts s i rest → IsInt64 i → extract_int s ≡ some (i, rest)
unfolding extract_int skip_ws drop_while is_space
extract_int_complete (unsigned ds rest h k) v =
    ap signed (skip_ws_digits ds rest h)
    ∙ signed_digits ds rest h
    ∙ ap positive (extract_digits-IsDigits ds rest h k)
    ∙ positive_fits (decimal ds) rest v
extract_int_complete (plus ds rest h k) v =
    ap positive (extract_digits-IsDigits ds rest h k) ∙ positive_fits (decimal ds) rest v
extract_int_complete (minus ds rest h k) v =
    ap negative (extract_digits-IsDigits ds rest h k) ∙ negative_fits (decimal ds) rest v
extract_int_complete (space h e) v = rw (h) (extract_int_complete e v)

pub extract_int_iff :
    (s : Bytes) (i : ℤ) (rest : Bytes)
    → (extract_int s ≡ some (i, rest)) ↔ (Extracts s i rest × IsInt64 i)
extract_int_iff s i rest = (extract_int_sound s, λ h. extract_int_complete h.0 h.1)
