-- ===== src/IniReader/Assignments.antt =====
-- `tryParseKeyValue` of src/cIniReader.cpp accepts the assignments, and returns their parts.
use pquery.Prelude.{
  ℕ, suc, true, false, [], ◌∷◌, ◌++◌, ◌≡◌, ◌↔◌, refl, sym, ap, subst, ◌∙◌, Option, none, some,
  arith, inl, inr, ◌==◌, Bytes, length, All, Stops, between, between-append, drop_while-append,
  Passes, drop_while-Passes, length-append, append_assoc, is_space, Bool-cases,
}
use pquery.IniReader.Line.{
  is_key_char, skip_ws, key_end, word_end, value_loop, value_at, assigned, with_key, key_value_at,
  try_parse_key_value,
}
use pquery.IniReader.Syntax.{Space, IsWord, IsTail, IsValue, IsKey, KeyValueLine}
use pquery.IniReader.Words.{
  skip_ws-append, skip_ws-Passes, IsWord-Stops, IsTail-Stops, word_end-append, value_loop_complete,
}
use pquery.IniReader.Loop.{begins_with_word, value_loop_sound}

value_at_complete :
    (w tail trailing : Bytes)
    → IsWord w
    → IsTail tail
    → All Space trailing
    → value_at (w ++ (tail ++ trailing)) ≡ some (w ++ tail)
value_at_complete [] tail trailing h t k = absurd h
value_at_complete (c ∷ w) tail trailing h t k =
    rw (word_end-append (c ∷ w) (tail ++ trailing) h (IsTail-Stops trailing t k)) (
      value_loop_complete (suc (length (w ++ (tail ++ trailing)))) (c ∷ w) trailing t k
        (omega (arith, length-append w (tail ++ trailing))))

-- A value with white space behind it.
pub record Valued (s value : Bytes) : Type 0 where
  pub trailing : Bytes
  pub splits : s ≡ value ++ trailing
  pub is_value : IsValue value
  pub trailing_space : All Space trailing

value_at_sound :
    (c : ℕ) (s : Bytes) {value : Bytes}
    → is_space c ≡ false
    → value_at (c ∷ s) ≡ some value
    → Valued (c ∷ s) value
value_at_sound c s {value} h e =
    let w = begins_with_word c s h in
    let ve = word_end (c ∷ s) in
    let r =
      value_loop_sound (length (c ∷ s)) w.word ve
        (omega (arith, ap length w.splits, length-append w.word ve)) w.stops
        (ap (λ x. value_loop (length (c ∷ s)) x ve) (sym w.splits) ∙ e) in
    record {
      trailing = r.trailing;
      splits =
          w.splits
          ∙ ap (λ x. w.word ++ x) r.splits
          ∙ sym (append_assoc w.word r.tail r.trailing)
          ∙ ap (λ x. x ++ r.trailing) (sym r.value_is);
      is_value = record {
        word = w.word;
        tail = r.tail;
        splits = r.value_is;
        is_word = w.is_word;
        is_tail = r.is_tail;
      };
      trailing_space = r.trailing_space;
    }

key_end-append :
    (k rest : Bytes)
    → All (λ d. is_key_char d ≡ true) k
    → Stops is_key_char rest
    → key_end (k ++ rest) ≡ rest
unfolding key_end
key_end-append k rest h s = drop_while-append is_key_char k rest h s

-- What stands behind the key.
assigned_complete :
    (gap : Bytes) (w tail trailing : Bytes)
    → All Space gap
    → IsWord w
    → IsTail tail
    → All Space trailing
    → assigned (b'=' ∷ (gap ++ (w ++ (tail ++ trailing)))) ≡ some (w ++ tail)
assigned_complete gap w tail trailing h word t k =
    ap value_at (skip_ws-append gap (w ++ (tail ++ trailing)) h (IsWord-Stops w _ word))
    ∙ value_at_complete w tail trailing word t k

not_space : is_space b'=' ≡ false
unfolding is_space
not_space = refl

key_value_at_complete :
    (key before gap w tail trailing : Bytes)
    → IsKey key
    → All Space before
    → Stops is_key_char (before ++ b'=' ∷ (gap ++ (w ++ (tail ++ trailing))))
    → All Space gap
    → IsWord w
    → IsTail tail
    → All Space trailing
    → key_value_at (key ++ (before ++ b'=' ∷ (gap ++ (w ++ (tail ++ trailing)))))
      ≡ some (key, w ++ tail)
key_value_at_complete [] before gap w tail trailing k a s h word t l = absurd k
key_value_at_complete (c ∷ key) before gap w tail trailing k a s h word t l =
    let rest = b'=' ∷ (gap ++ (w ++ (tail ++ trailing))) in
    let ends : key_end (key ++ (before ++ rest)) ≡ before ++ rest =
      key_end-append key (before ++ rest) k.1 s in
    let skipped : skip_ws (before ++ rest) ≡ rest = skip_ws-append before rest a not_space in
    rw (
      ends,
      skipped,
      between-append (c ∷ key) (before ++ rest),
      assigned_complete gap w tail trailing h word t l,
    )

IsKey-Stops : (key rest : Bytes) → IsKey key → Stops is_space (key ++ rest)
IsKey-Stops [] rest h = absurd h
IsKey-Stops (c ∷ key) rest h = h.0

try_parse_key_value_complete :
    {line key value : Bytes}
    → KeyValueLine line key value
    → try_parse_key_value line ≡ some (key, value)
unfolding try_parse_key_value
try_parse_key_value_complete {line} {key} {value} l =
    let v = l.is_value in
    let words = v.word ++ (v.tail ++ l.trailing) in
    let words_are : value ++ l.trailing ≡ words =
      ap (λ x. x ++ l.trailing) v.splits ∙ append_assoc v.word v.tail l.trailing in
    let behind = l.gap_before ++ b'=' ∷ (l.gap_behind ++ words) in
    let ends : Stops is_key_char behind =
      subst (λ x. Stops is_key_char (l.gap_before ++ b'=' ∷ (l.gap_behind ++ x))) words_are
        l.key_ends in
    ap try_parse_key_value (
      l.splits
      ∙ ap (λ x. l.indent ++ (key ++ (l.gap_before ++ b'=' ∷ (l.gap_behind ++ x)))) words_are)
    ∙ ap key_value_at
        (skip_ws-append l.indent (key ++ behind) l.indent_space (IsKey-Stops key behind l.is_key))
    ∙ key_value_at_complete key l.gap_before l.gap_behind v.word v.tail l.trailing l.is_key
        l.before_space ends l.behind_space v.is_word v.is_tail l.trailing_space
    ∙ ap (λ x. some (key, x)) (sym v.splits)

with_key-eq-some :
    (k : Bytes) (o : Option Bytes) {key value : Bytes}
    → with_key k o ≡ some (key, value)
    → (k ≡ key) × (o ≡ some value)
with_key-eq-some k none e = absurd (cc)
with_key-eq-some k (some v) e = (cc, cc)

record Assigned (s value : Bytes) : Type 0 where
  gap : Bytes
  trailing : Bytes
  splits : s ≡ b'=' ∷ (gap ++ (value ++ trailing))
  gap_space : All Space gap
  is_value : IsValue value
  trailing_space : All Space trailing

value_found :
    (s t : Bytes) {value : Bytes}
    → Passes is_space s t
    → value_at t ≡ some value
    → Assigned (b'=' ∷ s) value
value_found s [] p e = absurd (cc)
value_found s (c ∷ t) p e =
    let v = value_at_sound c t p.stops e in
    record {
      gap = p.passed;
      trailing = v.trailing;
      splits = ap (◌∷◌ b'=') (p.splits ∙ ap (λ x. p.passed ++ x) v.splits);
      gap_space = p.holds;
      is_value = v.is_value;
      trailing_space = v.trailing_space;
    }

assigned_sound : (s : Bytes) {value : Bytes} → assigned s ≡ some value → Assigned s value
assigned_sound [] e = absurd (cc)
assigned_sound (c ∷ s) {value} e = elim (Bool-cases (c == b'=')) [
  | inl h ↦
      let is_eq : c ≡ b'=' = ground arith in
      let found : value_at (skip_ws s) ≡ some value = rw h at e in
      subst (λ x. Assigned (x ∷ s) value) (sym is_eq)
        (value_found s (skip_ws s) (skip_ws-Passes s) found)
  | inr h ↦ absurd (let x : none ≡ some value = rw h at e in cc)
]

key_end-Passes : (s : Bytes) → Passes is_key_char s (key_end s)
unfolding key_end
key_end-Passes s = drop_while-Passes is_key_char s

key_value_at_sound :
    (t indent : Bytes) {key value : Bytes}
    → Stops is_space t
    → All Space indent
    → key_value_at t ≡ some (key, value)
    → KeyValueLine (indent ++ t) key value
key_value_at_sound [] indent h i e = absurd (cc)
key_value_at_sound (c ∷ s) indent {key} {value} h i e =
    let k = key_end-Passes s in
    let (cut, found) =
      with_key-eq-some (between (c ∷ s) (key_end s)) (assigned (skip_ws (key_end s))) e in
    let b = skip_ws-Passes (key_end s) in
    let a = assigned_sound (skip_ws (key_end s)) found in
    let key_is : c ∷ k.passed ≡ key =
      sym (between-append (c ∷ k.passed) (key_end s))
      ∙ ap (λ x. between (c ∷ x) (key_end s)) (sym k.splits)
      ∙ cut in
    let behind : key_end s ≡ b.passed ++ b'=' ∷ (a.gap ++ (value ++ a.trailing)) =
      b.splits ∙ ap (λ x. b.passed ++ x) a.splits in
    record {
      indent = indent;
      gap_before = b.passed;
      gap_behind = a.gap;
      trailing = a.trailing;
      splits =
          ap (λ x. indent ++ c ∷ x) (k.splits ∙ ap (λ x. k.passed ++ x) behind)
          ∙ ap (λ x. indent ++ (x ++ (b.passed ++ b'=' ∷ (a.gap ++ (value ++ a.trailing))))) key_is;
      indent_space = i;
      is_key = subst IsKey key_is (h, k.holds);
      before_space = b.holds;
      key_ends = subst (Stops is_key_char) behind k.stops;
      behind_space = a.gap_space;
      is_value = a.is_value;
      trailing_space = a.trailing_space;
    }

try_parse_key_value_sound :
    {line key value : Bytes}
    → try_parse_key_value line ≡ some (key, value)
    → KeyValueLine line key value
unfolding try_parse_key_value
try_parse_key_value_sound {line} {key} {value} e =
    let p = skip_ws-Passes line in
    subst (λ x. KeyValueLine x key value) (sym p.splits)
      (key_value_at_sound (skip_ws line) p.passed p.stops p.holds e)

-- tryParseKeyValue accepts exactly the lines of the form key = value, with white space around the
-- parts and one white space between two words of the value, and returns that key and that value.
pub try_parse_key_value_iff :
    (line key value : Bytes)
    → (try_parse_key_value line ≡ some (key, value)) ↔ KeyValueLine line key value
try_parse_key_value_iff line key value = (try_parse_key_value_sound, try_parse_key_value_complete)
