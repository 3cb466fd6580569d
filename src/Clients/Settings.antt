-- ===== src/Clients/Settings.antt =====
-- Connection strings as the manual of PostgreSQL describes them, for what `PgsqlDatabase::connect` of
-- src/cPgsqlDatabase.cpp makes: such a string is read in one way.
use pquery.Prelude.{
  append-nil, ℕ, Bool, true, false, not, ◌&&◌, List, [], ◌∷◌, ◌++◌, ◌≡◌, ◌≢◌, refl, sym, ap, ◌∙◌,
  ◌==◌, Bytes, is_space, All, drop_while, drop_while-append, between, between-append, Stops,
}

-- What needs no quotes in a value: all but white space, the quote and the backslash.
unfoldable pub in_word : ℕ → Bool
unfolding is_space
in_word c = not (is_space c) && (not (c == 39) && not (c == 92))

unfoldable pub in_keyword : ℕ → Bool
unfolding is_space
in_keyword c = not (is_space c) && not (c == b'=')

abbrev pub InWord : ℕ → Type 0
InWord c = in_word c ≡ true

abbrev pub Blanks : Bytes → Type 0
Blanks = All (λ c. is_space c ≡ true)

abbrev pub IsMade : (ℕ → Bool) → Bytes → Type 0
IsMade p [] = ⊥
IsMade p (c ∷ word) = (p c ≡ true) × All (λ c. p c ≡ true) word

abbrev pub IsWord : Bytes → Type 0
IsWord = IsMade in_word

-- A keyword is not empty, and has no white space and no "=".
abbrev pub IsKeyword : Bytes → Type 0
IsKeyword = IsMade in_keyword

-- Those without quotes and backslashes: settings with white space between them, each a keyword, "="
-- and a value. White space around the "=" is no part of the keyword or the value.
pub data Settings : Bytes → List (Bytes × Bytes) → Type 0 where
  last :
      (keyword before gap value : Bytes)
      → IsKeyword keyword
      → Blanks before
      → Blanks gap
      → IsWord value
      → Settings (keyword ++ (before ++ b'=' ∷ (gap ++ value))) ((keyword, value) ∷ [])
  next :
      (keyword before gap value : Bytes) (space : ℕ) (spaces rest : Bytes)
      {settings : List (Bytes × Bytes)}
      → IsKeyword keyword
      → Blanks before
      → Blanks gap
      → IsWord value
      → is_space space ≡ true
      → Blanks spaces
      → Settings rest settings
      → Settings
          (keyword ++ (before ++ b'=' ∷ (gap ++ (value ++ space ∷ (spaces ++ rest)))))
          ((keyword, value) ∷ settings)

-- The longest prefix, and what is behind it.
abbrev taken : (ℕ → Bool) → Bytes → Bytes
taken p s = between s (drop_while p s)

taken-append :
    (p : ℕ → Bool) (w rest : Bytes)
    → All (λ c. p c ≡ true) w
    → Stops p rest
    → (taken p (w ++ rest) ≡ w) × (drop_while p (w ++ rest) ≡ rest)
taken-append p w rest h k =
    let e = drop_while-append p w rest h k in
    (ap (between (w ++ rest)) e ∙ between-append w rest, e)

made-All : (p : ℕ → Bool) (w : Bytes) → IsMade p w → All (λ c. p c ≡ true) w
made-All p [] h = absurd h
made-All p (c ∷ w) h = h

-- White space ends where a word begins.
made-Stops :
    (p : ℕ → Bool) (w rest : Bytes)
    → ((c : ℕ) → p c ≡ true → is_space c ≡ false)
    → IsMade p w
    → Stops is_space (w ++ rest)
made-Stops p [] rest h k = absurd k
made-Stops p (c ∷ w) rest h k = h c k.0

not_left : (b c : Bool) → (not b && c) ≡ true → b ≡ false
not_left true c h = absurd cc
not_left false c h = refl

in_word-not_space : (c : ℕ) → in_word c ≡ true → is_space c ≡ false
unfolding in_word
in_word-not_space c h = not_left (is_space c) _ h

in_keyword-not_space : (c : ℕ) → in_keyword c ≡ true → is_space c ≡ false
unfolding in_keyword
in_keyword-not_space c h = not_left (is_space c) _ h

space-not_in_word : (c : ℕ) → is_space c ≡ true → in_word c ≡ false
unfolding in_word
space-not_in_word c h = rw h refl

keyword_ends : (before rest : Bytes) → Blanks before → Stops in_keyword (before ++ b'=' ∷ rest)
unfolding in_keyword
keyword_ends [] rest h = refl
keyword_ends (c ∷ before) rest h = rw (h.0) refl

abbrev tail_of : Bytes → Bytes
tail_of [] = []
tail_of (c ∷ s) = s

abbrev skipped : Bytes → Bytes
skipped = drop_while is_space

-- The keyword, the value, and what is behind the white space that follows.
first_setting : Bytes → Bytes × Bytes × Bytes
first_setting s =
    let behind = skipped (tail_of (skipped (drop_while in_keyword s))) in
    (taken in_keyword s, taken in_word behind, skipped (drop_while in_word behind))

first_setting_lem :
    (keyword before gap value rest : Bytes)
    → IsKeyword keyword
    → Blanks before
    → Blanks gap
    → IsWord value
    → Stops in_word rest
    → first_setting (keyword ++ (before ++ b'=' ∷ (gap ++ (value ++ rest))))
      ≡ (keyword, value, skipped rest)
unfolding first_setting is_space
first_setting_lem keyword before gap value rest k b g w n =
    let behind = value ++ rest in
    let (key, k_rest) =
      taken-append in_keyword keyword (before ++ b'=' ∷ (gap ++ behind))
        (made-All in_keyword keyword k) (keyword_ends before (gap ++ behind) b) in
    let at_equals = drop_while-append is_space before (b'=' ∷ (gap ++ behind)) b refl in
    let at_value =
      drop_while-append is_space gap behind g (made-Stops in_word value rest in_word-not_space w) in
    let (val, v_rest) = taken-append in_word value rest (made-All in_word value w) n in
    rw (key, k_rest, at_equals, at_value, val, v_rest) refl

first_of :
    {s : Bytes} {settings : List (Bytes × Bytes)} → Settings s settings → Bytes × Bytes × Bytes
first_of (last keyword before gap value _ _ _ _) = (keyword, value, [])
first_of (next keyword before gap value space spaces rest _ _ _ _ _ _ _) = (keyword, value, rest)

-- A string of settings begins with no white space.
Settings-Stops :
    {s : Bytes} {settings : List (Bytes × Bytes)} → Settings s settings → Stops is_space s
Settings-Stops (last keyword before gap value k b g w) =
    made-Stops in_keyword keyword _ in_keyword-not_space k
Settings-Stops (next keyword before gap value space spaces rest k b g w h hs d) =
    made-Stops in_keyword keyword _ in_keyword-not_space k

made-not_empty : (p : ℕ → Bool) (w rest : Bytes) → IsMade p w → w ++ rest ≢ []
made-not_empty p [] rest h = absurd h
made-not_empty p (c ∷ w) rest h = λ e. cc

Settings-not_empty : {s : Bytes} {settings : List (Bytes × Bytes)} → Settings s settings → s ≢ []
Settings-not_empty (last keyword before gap value k b g w) = made-not_empty in_keyword keyword _ k
Settings-not_empty (next keyword before gap value space spaces rest k b g w h hs d) =
    made-not_empty in_keyword keyword _ k

first_setting-first_of :
    {s : Bytes} {settings : List (Bytes × Bytes)} (d : Settings s settings)
    → first_setting s ≡ first_of d
unfolding first_of drop_while
first_setting-first_of (last keyword before gap value k b g w) =
    ap (λ v. first_setting (keyword ++ (before ++ b'=' ∷ (gap ++ v)))) (sym (append-nil value))
    ∙ first_setting_lem keyword before gap value [] k b g w tt
first_setting-first_of (next keyword before gap value space spaces rest k b g w h hs d) =
    first_setting_lem keyword before gap value (space ∷ (spaces ++ rest)) k b g w
      (space-not_in_word space h)
    ∙ ap (λ r. (keyword, value, r))
        (drop_while-append is_space (space ∷ spaces) rest (h, hs) (Settings-Stops d))

same_first :
    {s t : Bytes} {settings others : List (Bytes × Bytes)} (d : Settings s settings)
    (e : Settings t others)
    → s ≡ t
    → first_of d ≡ first_of e
same_first d e h = sym (first_setting-first_of d) ∙ ap first_setting h ∙ first_setting-first_of e

settings_from :
    {s t : Bytes} {settings others : List (Bytes × Bytes)} (d : Settings s settings)
    (e : Settings t others)
    → first_of d ≡ first_of e
    → settings ≡ others
unfolding first_of
settings_from (last keyword before gap value k b g w)
      (last keyword' before' gap' value' k' b' g' w') h =
    ap (λ f. (f.0, f.1) ∷ []) h
settings_from (last keyword before gap value k b g w)
      (next keyword' before' gap' value' space spaces rest k' b' g' w' c hs e) h =
    absurd (Settings-not_empty e (sym (ap (λ f. f.2) h)))
settings_from (next keyword before gap value space spaces rest k b g w c hs d)
      (last keyword' before' gap' value' k' b' g' w') h =
    absurd (Settings-not_empty d (ap (λ f. f.2) h))
settings_from (next keyword before gap value space spaces rest k b g w c hs d)
      (next keyword' before' gap' value' space' spaces' rest' k' b' g' w' c' hs' e) h =
    let others = settings_from d e (same_first d e (ap (λ f. f.2) h)) in
    λ i. ((h i).0, (h i).1) ∷ others i

-- A string is read as one list of settings at most.
pub Settings-unique :
    {s : Bytes} {settings others : List (Bytes × Bytes)}
    → Settings s settings
    → Settings s others
    → settings ≡ others
Settings-unique d e = settings_from d e (same_first d e refl)
