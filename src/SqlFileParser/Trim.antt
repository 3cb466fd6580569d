-- ===== src/SqlFileParser/Trim.antt =====
-- `trim` of src/cSqlFileParser.cpp: what it cuts off and what it keeps.
use pquery.Prelude.{
  ℕ, ◌≤◌, true, false, [], ◌∷◌, ◌++◌, ◌≡◌, ◌≢◌, refl, sym, ap, subst, ◌∙◌, ◌⊎◌, inl, inr, arith,
  Bytes, All, is_empty, length, length-append, Bool-cases, append_assoc,
}
use mathlib.Core.Bool.{false≢true}
use pquery.SqlFileParser.Text.{is_blank, trim_start, trim_end, trim}

abbrev pub Blank : ℕ → Type 0
Blank c = is_blank c ≡ true

abbrev pub StartsSolid : Bytes → Type 0
StartsSolid [] = ⊥
StartsSolid (c ∷ s) = is_blank c ≡ false

abbrev pub EndsSolid : Bytes → Type 0
EndsSolid [] = ⊥
EndsSolid (c ∷ []) = is_blank c ≡ false
EndsSolid (c ∷ d ∷ s) = EndsSolid (d ∷ s)

-- Not empty, with no blank at either end.
abbrev pub IsTrimmed : Bytes → Type 0
IsTrimmed s = StartsSolid s × EndsSolid s

-- `t` is `s` without the blanks at its two ends.
pub record Trims (s t : Bytes) : Type 0 where
  pub before : Bytes
  pub after : Bytes
  pub splits : s ≡ before ++ t ++ after
  pub blank_before : All Blank before
  pub blank_after : All Blank after
  pub kept : (t ≡ []) ⊎ IsTrimmed t

record CutsStart (s t : Bytes) : Type 0 where
  before : Bytes
  splits : s ≡ before ++ t
  blank_before : All Blank before
  kept : (t ≡ []) ⊎ StartsSolid t

trim_start-CutsStart : (s : Bytes) → CutsStart s (trim_start s)
unfolding trim_start
trim_start-CutsStart [] = record { before = []; splits = refl; blank_before = tt; kept = inl refl }
trim_start-CutsStart (c ∷ s) = elim (Bool-cases (is_blank c)) [
  | inl blank ↦
      let r = trim_start-CutsStart s in
      rw blank (record {
        before = c ∷ r.before;
        splits = ap (◌∷◌ c) r.splits;
        blank_before = (blank, r.blank_before);
        kept = r.kept;
      })
  | inr solid ↦
      rw solid (record { before = []; splits = refl; blank_before = tt; kept = inr solid })
]

record CutsEnd (s t : Bytes) : Type 0 where
  after : Bytes
  splits : s ≡ t ++ after
  blank_after : All Blank after
  kept : (t ≡ []) ⊎ EndsSolid t

EndsSolid-cons : (c : ℕ) (s : Bytes) → EndsSolid s → EndsSolid (c ∷ s)
EndsSolid-cons c [] h = absurd h
EndsSolid-cons c (d ∷ s) h = h

-- Below a character that stays, what `trim_end` keeps stays as it is.
CutsEnd-cons : (c : ℕ) (s t : Bytes) → CutsEnd s t → t ≢ [] → CutsEnd (c ∷ s) (c ∷ t)
CutsEnd-cons c s t r ne = record {
  after = r.after;
  splits = ap (◌∷◌ c) r.splits;
  blank_after = r.blank_after;
  kept = inr (elim r.kept [ inl e ↦ absurd (ne e) | inr solid ↦ EndsSolid-cons c t solid ]);
}

trim_end_cons :
    (c : ℕ) (s t : Bytes) → trim_end s ≡ t → CutsEnd s t → CutsEnd (c ∷ s) (trim_end (c ∷ s))
unfolding trim_end
trim_end_cons c s [] e r =
    let blank_s = subst (All Blank) (sym r.splits) r.blank_after in
    elim (Bool-cases (is_blank c)) [
      | inl blank ↦
          rw (e, blank)
            (record {
              after = c ∷ s;
              splits = refl;
              blank_after = (blank, blank_s);
              kept = inl refl;
            })
      | inr solid ↦
          rw (e, solid)
            (record { after = s; splits = refl; blank_after = blank_s; kept = inr solid })
    ]
trim_end_cons c s (d ∷ t) e r = elim (Bool-cases (is_blank c)) [
  | inl blank ↦ rw (e, blank) (CutsEnd-cons c s (d ∷ t) r (λ h. cc))
  | inr solid ↦ rw (e, solid) (CutsEnd-cons c s (d ∷ t) r (λ h. cc))
]

trim_end-CutsEnd : (s : Bytes) → CutsEnd s (trim_end s)
unfolding trim_end
trim_end-CutsEnd [] = record { after = []; splits = refl; blank_after = tt; kept = inl refl }
trim_end-CutsEnd (c ∷ s) = trim_end_cons c s (trim_end s) refl (trim_end-CutsEnd s)

trim_end-StartsSolid : (s : Bytes) → StartsSolid s → StartsSolid (trim_end s)
unfolding trim_end
trim_end-StartsSolid [] h = absurd h
trim_end-StartsSolid (c ∷ s) h = rw h h

trim_kept :
    (s : Bytes)
    → (s ≡ []) ⊎ StartsSolid s
    → (trim_end s ≡ []) ⊎ EndsSolid (trim_end s)
    → (trim_end s ≡ []) ⊎ IsTrimmed (trim_end s)
unfolding trim_end
trim_kept s (inl e) k = inl (rw e)
trim_kept s (inr h) (inl e) = inl e
trim_kept s (inr h) (inr k) = inr (trim_end-StartsSolid s h, k)

-- `trim` takes the blanks from both ends, and nothing else.
pub trim-Trims : (s : Bytes) → Trims s (trim s)
unfolding trim
trim-Trims s =
    let first = trim_start-CutsStart s in
    let last = trim_end-CutsEnd (trim_start s) in
    record {
      before = first.before;
      after = last.after;
      splits =
          first.splits
          ∙ ap (◌++◌ first.before) last.splits
          ∙ sym (append_assoc first.before (trim s) last.after);
      blank_before = first.blank_before;
      blank_after = last.blank_after;
      kept = trim_kept (trim_start s) first.kept last.kept;
    }

pub trim-IsTrimmed : (s : Bytes) → is_empty (trim s) ≡ false → IsTrimmed (trim s)
trim-IsTrimmed s h = elim (trim-Trims s).kept [
  | inl e ↦ absurd (false≢true (sym h ∙ ap is_empty e))
  | inr k ↦ k
]

pub length-trim-le : (s : Bytes) → length (trim s) ≤ length s
length-trim-le s =
    let t = trim-Trims s in
    omega (
      arith,
      ap length t.splits,
      length-append (t.before ++ trim s) t.after,
      length-append t.before (trim s),
    )

trim_start-append : (w s : Bytes) → All Blank w → trim_start (w ++ s) ≡ trim_start s
unfolding trim_start
trim_start-append [] s h = refl
trim_start-append (c ∷ w) s h = rw h.0 (trim_start-append w s h.1)

trim_start_solid : (s : Bytes) → StartsSolid s → trim_start s ≡ s
unfolding trim_start
trim_start_solid [] h = refl
trim_start_solid (c ∷ s) h = rw h

trim_end-Blank : (w : Bytes) → All Blank w → trim_end w ≡ []
unfolding trim_end
trim_end-Blank [] h = refl
trim_end-Blank (c ∷ w) h = rw (h.0, trim_end-Blank w h.1)

trim_end_keeps : (c d : ℕ) (s t : Bytes) → trim_end s ≡ d ∷ t → trim_end (c ∷ s) ≡ c ∷ d ∷ t
unfolding trim_end
trim_end_keeps c d s t e = ground arith

trim_end-append : (s w : Bytes) → EndsSolid s → All Blank w → trim_end (s ++ w) ≡ s
unfolding trim_end
trim_end-append [] w k h = absurd k
trim_end-append (c ∷ []) w k h = rw (trim_end-Blank w h, k)
trim_end-append (c ∷ d ∷ s) w k h =
    trim_end_keeps c d ((d ∷ s) ++ w) s (trim_end-append (d ∷ s) w k h)

-- Blanks around a trimmed text do not change what `trim` returns.
pub trim-append :
    (before s after : Bytes)
    → All Blank before
    → IsTrimmed s
    → All Blank after
    → trim (before ++ s ++ after) ≡ s
unfolding trim
trim-append before [] after hb ht ha = absurd ht.0
trim-append before (c ∷ s) after hb ht ha =
    ap trim (append_assoc before (c ∷ s) after)
    ∙ ap trim_end (trim_start-append before _ hb ∙ trim_start_solid (c ∷ (s ++ after)) ht.0)
    ∙ trim_end-append (c ∷ s) after ht.1 ha
