-- ===== src/IniReader/Words.antt =====
-- The loop of `tryParseKeyValue` in src/cIniReader.cpp: it takes all the words of a value.
use pquery.Prelude.{
  ℕ, zero, suc, ◌-◌, ◌≤◌, true, [], ◌∷◌, ◌++◌, ◌≡◌, sym, ap, ◌∙◌, some, arith, ◌==◌, Bytes, length,
  All, Stops, between, between-append, drop_while-append, Passes, drop_while-Passes, length-append,
  append_assoc, append-nil, is_space,
}
use pquery.IniReader.Line.{is_word_char, skip_ws, word_end, value_loop}
use pquery.IniReader.Syntax.{Space, IsWord, IsTail, nil, more}

pub skip_ws-append :
    (w rest : Bytes) → All Space w → Stops is_space rest → skip_ws (w ++ rest) ≡ rest
unfolding skip_ws
skip_ws-append w rest h k = drop_while-append is_space w rest h k

pub skip_ws-Passes : (s : Bytes) → Passes is_space s (skip_ws s)
unfolding skip_ws
skip_ws-Passes s = drop_while-Passes is_space s

IsWord-All : (w : Bytes) → IsWord w → All (λ c. is_word_char c ≡ true) w
IsWord-All [] h = absurd h
IsWord-All (c ∷ w) h = h

pub IsWord-Stops : (w rest : Bytes) → IsWord w → Stops is_space (w ++ rest)
IsWord-Stops [] rest h = absurd h
IsWord-Stops (c ∷ w) rest h = ground (arith, h.0)

pub word_end-append :
    (w rest : Bytes) → IsWord w → Stops is_word_char rest → word_end (w ++ rest) ≡ rest
unfolding word_end
word_end-append w rest h k = drop_while-append is_word_char w rest (IsWord-All w h) k

Space-Stops : (s : Bytes) → All Space s → Stops is_word_char s
Space-Stops [] h = tt
Space-Stops (c ∷ s) h = ground (arith, h.0)

pub IsTail-Stops :
    {tail : Bytes} (s : Bytes) → IsTail tail → All Space s → Stops is_word_char (tail ++ s)
IsTail-Stops s nil h = Space-Stops s h
IsTail-Stops s (more c w tail b _ _) h = ground (arith, b)

between_self : (s : Bytes) → between s s ≡ []
between_self s = between-append [] s

value_loop_blank :
    (fuel : ℕ) (prefix s : Bytes)
    → All Space s
    → length s ≤ fuel
    → value_loop fuel (prefix ++ s) s ≡ some prefix
unfolding value_loop
value_loop_blank zero prefix [] h k = ap some (between-append prefix [])
value_loop_blank zero prefix (c ∷ s) h k = absurd (omega arith)
value_loop_blank (suc fuel) prefix [] h k = ap some (between-append prefix [])
value_loop_blank (suc fuel) prefix (c ∷ s) h k =
    let blank : skip_ws (c ∷ s) ≡ [] =
      ap skip_ws (sym (append-nil (c ∷ s))) ∙ skip_ws-append (c ∷ s) [] h tt in
    rw (blank) (ap some (between-append prefix (c ∷ s)))

-- One round of the loop, over a word behind one white space.
value_loop_word :
    (fuel : ℕ) (from : Bytes) (c : ℕ) (w rest : Bytes)
    → Space c
    → IsWord w
    → Stops is_word_char rest
    → value_loop (suc fuel) from (c ∷ (w ++ rest)) ≡ value_loop fuel from rest
unfolding value_loop
value_loop_word fuel from c [] rest b h k = absurd h
value_loop_word fuel from c (d ∷ w) rest b h k =
    let next : skip_ws (c ∷ d ∷ (w ++ rest)) ≡ d ∷ (w ++ rest) =
      skip_ws-append (c ∷ []) (d ∷ (w ++ rest)) (b, tt) (IsWord-Stops (d ∷ w) rest h) in
    let one : (suc (suc (length (w ++ rest))) - suc (length (w ++ rest)) == 1) ≡ true =
      ground arith in
    rw (next, one, word_end-append (d ∷ w) rest h k)

-- The loop takes all words of the value, and leaves the white space behind them.
pub value_loop_complete :
    {tail : Bytes} (fuel : ℕ) (prefix trailing : Bytes)
    → IsTail tail
    → All Space trailing
    → length (tail ++ trailing) ≤ fuel
    → value_loop fuel (prefix ++ (tail ++ trailing)) (tail ++ trailing) ≡ some (prefix ++ tail)
value_loop_complete fuel prefix trailing nil h k =
    value_loop_blank fuel prefix trailing h k ∙ ap some (sym (append-nil prefix))
value_loop_complete zero prefix trailing (more c w tail b word t) h k = absurd (omega arith)
value_loop_complete (suc fuel) prefix trailing (more c w tail b word t) h k =
    let rest = tail ++ trailing in
    let fits : length rest ≤ fuel = omega (
      arith,
      length-append (w ++ tail) trailing,
      length-append w tail,
      length-append tail trailing,
    ) in
    rw (append_assoc w tail trailing) (
      value_loop_word fuel (prefix ++ c ∷ (w ++ rest)) c w rest b word (IsTail-Stops trailing t h)
      ∙ ap (λ x. value_loop fuel x rest) (sym (append_assoc prefix (c ∷ w) rest))
      ∙ value_loop_complete fuel (prefix ++ c ∷ w) trailing t h fits
      ∙ ap some (append_assoc prefix (c ∷ w) tail))
