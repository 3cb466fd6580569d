-- ===== src/IniReader/Loop.antt =====
-- The loop of `tryParseKeyValue` in src/cIniReader.cpp: what it returns is a value.
use pquery.Prelude.{
  ℕ, zero, suc, ◌-◌, ◌≤◌, true, false, not, [], ◌∷◌, ◌++◌, ◌≡◌, refl, sym, ap, ◌∙◌, none, some,
  arith, inl, inr, ◌==◌, if◌then◌else◌, Bytes, length, is_empty, All, Stops, between,
  between-append, Passes, drop_while-Passes, length-append, append_assoc, subst, append-nil,
  is_space, Bool-cases,
}
use pquery.IniReader.Line.{is_word_char, skip_ws, word_end, value_loop}
use pquery.IniReader.Syntax.{Space, IsWord, IsTail, nil, more}
use pquery.IniReader.Words.{skip_ws-Passes}

-- `value` ends in the line at the end of `tail`, and only white space follows.
pub record Ends (prefix ve value : Bytes) : Type 0 where
  pub tail : Bytes
  pub trailing : Bytes
  pub splits : ve ≡ tail ++ trailing
  pub is_tail : IsTail tail
  pub trailing_space : All Space trailing
  pub value_is : value ≡ prefix ++ tail

value_loop_step :
    (fuel : ℕ) (from : Bytes) (c : ℕ) (s : Bytes)
    → value_loop (suc fuel) from (c ∷ s) ≡ (
        if is_empty (skip_ws (c ∷ s))
        then some (between from (c ∷ s))
        else if not (length (c ∷ s) - length (skip_ws (c ∷ s)) == 1)
        then none
        else value_loop fuel from (word_end (skip_ws (c ∷ s))))
unfolding value_loop
value_loop_step fuel from c s = refl

Ends-trailing :
    (prefix ve : Bytes) {value : Bytes}
    → All Space ve
    → some prefix ≡ some value
    → Ends prefix ve value
Ends-trailing prefix ve h e = record {
  tail = [];
  trailing = ve;
  splits = refl;
  is_tail = nil;
  trailing_space = h;
  value_is = sym (cc) ∙ sym (append-nil prefix);
}

Ends-word :
    (prefix : Bytes) (c : ℕ) (w rest : Bytes) {value : Bytes}
    → Space c
    → IsWord w
    → Ends (prefix ++ c ∷ w) rest value
    → Ends prefix (c ∷ (w ++ rest)) value
Ends-word prefix c w rest b word r = record {
  tail = c ∷ (w ++ r.tail);
  trailing = r.trailing;
  splits = ap (λ x. c ∷ (w ++ x)) r.splits ∙ ap (◌∷◌ c) (sym (append_assoc w r.tail r.trailing));
  is_tail = more c w r.tail b word r.is_tail;
  trailing_space = r.trailing_space;
  value_is = r.value_is ∙ append_assoc prefix (c ∷ w) r.tail;
}

-- A text that begins with no white space begins with a word.
pub record BeginsWithWord (s : Bytes) : Type 0 where
  pub word : Bytes
  pub splits : s ≡ word ++ word_end s
  pub is_word : IsWord word
  pub stops : Stops is_word_char (word_end s)

IsWord-of :
    (c : ℕ) (s w rest : Bytes)
    → is_space c ≡ false
    → c ∷ s ≡ w ++ rest
    → Stops is_word_char rest
    → All (λ d. is_word_char d ≡ true) w
    → IsWord w
IsWord-of c s [] [] h e k a = absurd (cc)
IsWord-of c s [] (d ∷ rest) h e k a = absurd (ground arith)
IsWord-of c s (d ∷ w) rest h e k a = a

pub begins_with_word : (c : ℕ) (s : Bytes) → is_space c ≡ false → BeginsWithWord (c ∷ s)
unfolding word_end
begins_with_word c s h =
    let p = drop_while-Passes is_word_char (c ∷ s) in
    record {
      word = p.passed;
      splits = p.splits;
      is_word = IsWord-of c s p.passed _ h p.splits p.stops p.holds;
      stops = p.stops;
    }

one_space :
    (c : ℕ) (s passed next : Bytes)
    → c ∷ s ≡ passed ++ next
    → length (c ∷ s) - length next ≡ 1
    → s ≡ next
one_space c s [] next e k = absurd (omega (arith, ap length e))
one_space c s (d ∷ []) next e k = cc
one_space c s (d ∷ f ∷ passed) next e k =
    absurd (omega (arith, ap length e, length-append passed next))

-- One round of the loop, given what the rounds after it do.
value_loop_round :
    (fuel : ℕ) (prefix : Bytes) (c : ℕ) (s next : Bytes) {value : Bytes}
    → length s ≤ fuel
    → Space c
    → Passes is_space (c ∷ s) next
    → (if is_empty next
        then some (between (prefix ++ c ∷ s) (c ∷ s))
        else if not (length (c ∷ s) - length next == 1)
        then none
        else value_loop fuel (prefix ++ c ∷ s) (word_end next))
      ≡ some value
    → ((prefix' ve : Bytes)
        → length ve ≤ fuel
        → Stops is_word_char ve
        → value_loop fuel (prefix' ++ ve) ve ≡ some value
        → Ends prefix' ve value)
    → Ends prefix (c ∷ s) value
value_loop_round fuel prefix c s [] k b p e later =
    Ends-trailing prefix (c ∷ s) (subst (All Space) (sym (p.splits ∙ append-nil p.passed)) p.holds)
      (ap some (sym (between-append prefix (c ∷ s))) ∙ e)
value_loop_round fuel prefix c s (d ∷ n) {value} k b p e later =
    elim (Bool-cases (length (c ∷ s) - length (d ∷ n) == 1)) [
      | inl t ↦
          let w = begins_with_word d n p.stops in
          let rest = word_end (d ∷ n) in
          let s_is : s ≡ w.word ++ rest =
            one_space c s p.passed (d ∷ n) p.splits (ground arith) ∙ w.splits in
          let loop : value_loop fuel (prefix ++ c ∷ s) rest ≡ some value = rw t at e in
          let from_is : (prefix ++ c ∷ w.word) ++ rest ≡ prefix ++ c ∷ s =
            append_assoc prefix (c ∷ w.word) rest ∙ ap (λ x. prefix ++ c ∷ x) (sym s_is) in
          subst (λ x. Ends prefix (c ∷ x) value) (sym s_is)
            (Ends-word prefix c w.word rest b w.is_word (
              later (prefix ++ c ∷ w.word) rest
                (omega (arith, ap length s_is, length-append w.word rest)) w.stops
                (ap (λ x. value_loop fuel x rest) from_is ∙ loop)))
      | inr f ↦ absurd (let x : none ≡ some value = rw f at e in cc)
    ]

-- What the loop returns is a value with white space behind it.
pub value_loop_sound :
    (fuel : ℕ) (prefix ve : Bytes) {value : Bytes}
    → length ve ≤ fuel
    → Stops is_word_char ve
    → value_loop fuel (prefix ++ ve) ve ≡ some value
    → Ends prefix ve value
unfolding value_loop
value_loop_sound zero prefix [] k h e =
    Ends-trailing prefix [] tt (ap some (sym (between-append prefix [])) ∙ e)
value_loop_sound zero prefix (c ∷ s) k h e = absurd (omega arith)
value_loop_sound (suc fuel) prefix [] k h e =
    Ends-trailing prefix [] tt (ap some (sym (between-append prefix [])) ∙ e)
value_loop_sound (suc fuel) prefix (c ∷ s) k h e =
    value_loop_round fuel prefix c s (skip_ws (c ∷ s)) (omega arith) (ground arith)
      (skip_ws-Passes (c ∷ s)) (sym (value_loop_step fuel (prefix ++ c ∷ s) c s) ∙ e)
      (λ prefix' ve. value_loop_sound fuel prefix' ve)
