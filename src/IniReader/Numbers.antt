-- ===== src/IniReader/Numbers.antt =====
-- What `std::istringstream >> int64_t` takes in `INIReader::GetInteger` of src/cIniReader.cpp:
-- white space, a sign and decimal digits.
use pquery.Prelude.{
  ℕ, zero, suc, ◌+◌, ◌-◌, ◌*◌, ◌^◌, ◌≤◌, Bool, true, false, [], ◌∷◌, ◌++◌, ◌≡◌, ◌≢◌, ◌⊎◌, inl, inr,
  refl, sym, ap, subst, ◌∙◌, Option, none, some, arith, ltb, Bytes, All, Stops, length, is_digit,
  drop_while, drop_while-Passes, Bool-cases, ℤ, pos, neg, IsInt64, int64_bound,
}
use native.Mathlib.Numerals.{unary_clauses}
use pquery.IniReader.Values.{extract_digits, positive, negative}
use pquery.IniReader.Syntax.{Space}

-- The value of decimal digits.
abbrev pub decimal : Bytes → ℕ
decimal [] = 0
decimal (d ∷ ds) = (d - b'0') * 10 ^ length ds + decimal ds

abbrev pub Digit : ℕ → Type 0
Digit c = is_digit c ≡ true

-- Digits, at least one.
abbrev pub IsDigits : Bytes → Type 0
IsDigits ds = (ds ≢ []) × All Digit ds

-- The number at the front of a text, and what stands behind it.
pub data Extracts : Bytes → ℤ → Bytes → Type 0 where
  unsigned :
      (ds rest : Bytes)
      → IsDigits ds
      → Stops is_digit rest
      → Extracts (ds ++ rest) (pos (decimal ds)) rest
  plus :
      (ds rest : Bytes)
      → IsDigits ds
      → Stops is_digit rest
      → Extracts (b'+' ∷ (ds ++ rest)) (pos (decimal ds)) rest
  minus :
      (ds rest : Bytes)
      → IsDigits ds
      → Stops is_digit rest
      → Extracts (b'-' ∷ (ds ++ rest)) (neg (decimal ds)) rest
  space : {c : ℕ} {s rest : Bytes} {i : ℤ} → Space c → Extracts s i rest → Extracts (c ∷ s) i rest

pub pow-suc : (k : ℕ) → 10 ^ suc k ≡ 10 * 10 ^ k
pow-suc k = simp unary_clauses (omega arith)

horner : (n d e k : ℕ) → (n * 10 + d) * 10 ^ k + e ≡ n * 10 ^ suc k + (d * 10 ^ k + e)
horner n d e k = rw (pow-suc k) (omega arith)

extract_digits-append :
    (seen : Bool) (n : ℕ) (ds rest : Bytes)
    → All Digit ds
    → Stops is_digit rest
    → (seen ≡ true) ⊎ (ds ≢ [])
    → extract_digits seen n (ds ++ rest) ≡ some (n * 10 ^ length ds + decimal ds, rest)
unfolding extract_digits
extract_digits-append false n [] rest h s (inl e) = cc
extract_digits-append false n [] rest h s (inr e) = absurd (e refl)
extract_digits-append true n [] [] h s k = ap (λ m. some (m, [])) (omega arith)
extract_digits-append true n [] (c ∷ rest) h s k =
    rw (s) (ap (λ m. some (m, c ∷ rest)) (omega arith))
extract_digits-append seen n (d ∷ ds) rest h s k = rw (h.0) (
    extract_digits-append true (n * 10 + (d - b'0')) ds rest h.1 s (inl refl)
    ∙ ap (λ m. some (m, rest)) (horner n (d - b'0') (decimal ds) (length ds)))

pub extract_digits-IsDigits :
    (ds rest : Bytes)
    → IsDigits ds
    → Stops is_digit rest
    → extract_digits false 0 (ds ++ rest) ≡ some (decimal ds, rest)
extract_digits-IsDigits ds rest h s =
    extract_digits-append false 0 ds rest h.1 s (inr h.0) ∙ ap (λ m. some (m, rest)) (omega arith)

no_digit : (s : Bytes) → Stops is_digit s → extract_digits false 0 s ≡ none
unfolding extract_digits
no_digit [] h = refl
no_digit (c ∷ s) h = rw (h) refl

-- What the digits of a text are, where there is one.
pub record Digits (s : Bytes) (n : ℕ) (rest : Bytes) : Type 0 where
  pub ds : Bytes
  pub splits : s ≡ ds ++ rest
  pub is_digits : IsDigits ds
  pub stops : Stops is_digit rest
  pub value : n ≡ decimal ds

pub none-ne-some : {A : Type 0} {a : A} (o : Option A) → o ≡ none → ¬ (o ≡ some a)
none-ne-some o n e = cc

pub same_pair : {A B : Type 0} {p q : A × B} → some p ≡ some q → (p.0 ≡ q.0) × (p.1 ≡ q.1)
same_pair h = (cc, cc)

found-Digits :
    (s ds t : Bytes) {n : ℕ} {rest : Bytes}
    → s ≡ ds ++ t
    → All Digit ds
    → Stops is_digit t
    → extract_digits false 0 s ≡ some (n, rest)
    → Digits s n rest
found-Digits s [] t {n} {rest} e h k x =
    absurd (none-ne-some _ (ap (extract_digits false 0) e ∙ no_digit t k) x)
found-Digits s (d ∷ ds) t e h k x =
    let is : IsDigits (d ∷ ds) = (λ q. cc, h) in
    let (n, r) =
      same_pair (sym x ∙ ap (extract_digits false 0) e ∙ extract_digits-IsDigits (d ∷ ds) t is k) in
    record {
      ds = d ∷ ds;
      splits = e ∙ ap (λ u. (d ∷ ds) ++ u) (sym r);
      is_digits = is;
      stops = subst (Stops is_digit) (sym r) k;
      value = n;
    }

pub extract_digits-Digits :
    (s : Bytes) (n : ℕ) (rest : Bytes) → extract_digits false 0 s ≡ some (n, rest) → Digits s n rest
extract_digits-Digits s n rest x =
    let p = drop_while-Passes is_digit s in
    found-Digits s p.passed (drop_while is_digit s) p.splits p.holds p.stops x

pub record Positive (o : Option (ℕ × Bytes)) (i : ℤ) (rest : Bytes) : Type 0 where
  pub n : ℕ
  pub found : o ≡ some (n, rest)
  pub value : i ≡ pos n
  pub in_range : IsInt64 (pos n)

pub record Negative (o : Option (ℕ × Bytes)) (i : ℤ) (rest : Bytes) : Type 0 where
  pub n : ℕ
  pub found : o ≡ some (n, rest)
  pub value : i ≡ neg n
  pub in_range : IsInt64 (neg n)

neg-IsInt64 : (n : ℕ) → n ≤ int64_bound → IsInt64 (neg n)
neg-IsInt64 zero h = (omega arith, omega arith)
neg-IsInt64 (suc n) h = (omega arith, omega arith)

pub positive-Positive :
    (o : Option (ℕ × Bytes)) {i : ℤ} {rest : Bytes}
    → positive o ≡ some (i, rest)
    → Positive o i rest
positive-Positive none h = absurd (none-ne-some none refl h)
positive-Positive (some (n, t)) {i} {rest} h = elim (Bool-cases (ltb n int64_bound)) [
  | inl e ↦
      let fits : IsInt64 (pos n) = (omega arith, ground arith) in
      let (v, r) = same_pair (sym h ∙ rw (e) refl) in
      record { n = n; found = ap (λ u. some (n, u)) (sym r); value = v; in_range = fits }
  | inr e ↦ absurd (none-ne-some _ (rw (e) refl) h)
]

pub negative-Negative :
    (o : Option (ℕ × Bytes)) {i : ℤ} {rest : Bytes}
    → negative o ≡ some (i, rest)
    → Negative o i rest
negative-Negative none h = absurd (none-ne-some none refl h)
negative-Negative (some (n, t)) {i} {rest} h = elim (Bool-cases (ltb int64_bound n)) [
  | inl e ↦ absurd (none-ne-some _ (rw (e) refl) h)
  | inr e ↦
      let fits : n ≤ int64_bound = ground arith in
      let (v, r) = same_pair (sym h ∙ rw (e) refl) in
      record {
        n = n;
        found = ap (λ u. some (n, u)) (sym r);
        value = v;
        in_range = neg-IsInt64 n fits;
      }
]

pub positive_fits :
    (n : ℕ) (rest : Bytes) → IsInt64 (pos n) → positive (some (n, rest)) ≡ some (pos n, rest)
positive_fits n rest h = ground arith

pub negative_fits :
    (n : ℕ) (rest : Bytes) → IsInt64 (neg n) → negative (some (n, rest)) ≡ some (neg n, rest)
negative_fits zero rest h = ground arith
negative_fits (suc n) rest h = ground arith
