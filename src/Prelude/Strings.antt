-- ===== src/Prelude/Strings.antt =====
-- Byte strings (`std::string`), the character classes of <cctype> in the "C" locale, which is the
-- only one that the program runs in, and `std::getline`.
use Prim.Native.Char.{code}
use Prim.Native.String.{String}
use Prim.Native.Nat.{ℕ, ◌+◌}
use mathlib.Core.Path.{◌≡◌, refl, ap, ◌∙◌}
use mathlib.Core.Logic.{◌↔◌}
use mathlib.Core.List.{List, [], ◌∷◌, ◌++◌, append-nil, append_assoc}
use mathlib.Core.Bool.{Bool, true, false, ◌&&◌, ◌||◌}
use native.Mathlib.Omega.{arith}
use pquery.Prelude.Tests.{leb, ◌==◌, if◌then◌else◌}
use pquery.Prelude.Lists.{is_empty, All}

abbrev pub Bytes : Type 0
Bytes = List ℕ

-- The bytes of an ASCII literal.
abbrev pub codes : String → Bytes
codes String.[] = []
codes (String.◌∷◌ c s) = code c ∷ codes s

-- `operator==` on strings.
unfoldable pub equal : Bytes → Bytes → Bool
equal [] other = is_empty other
equal (c ∷ s) [] = false
equal (c ∷ s) (d ∷ other) = c == d && equal s other

pub equal_iff : (s other : Bytes) → (equal s other ≡ true) ↔ (s ≡ other)
unfolding equal
equal_iff [] [] = ground arith
equal_iff [] (d ∷ other) = ground arith
equal_iff (c ∷ s) [] = ground arith
equal_iff (c ∷ s) (d ∷ other) = let rest = equal_iff s other in ground arith

pub equal_self : (a : Bytes) → equal a a ≡ true
equal_self a = (equal_iff a a).1 refl

-- `s.rfind(prefix, 0) == 0`.
unfoldable pub starts_with : Bytes → Bytes → Bool
starts_with [] s = true
starts_with (p ∷ prefix) [] = false
starts_with (p ∷ prefix) (c ∷ s) = p == c && starts_with prefix s

-- `isspace`: space, \t, \n, \v, \f and \r.
unfoldable pub is_space : ℕ → Bool
is_space c = c == b' ' || leb 9 c && leb c 13

unfoldable pub is_alpha : ℕ → Bool
is_alpha c = leb b'a' c && leb c b'z' || leb b'A' c && leb c b'Z'

unfoldable pub is_digit : ℕ → Bool
is_digit c = leb b'0' c && leb c b'9'

unfoldable pub is_alnum : ℕ → Bool
unfolding is_alpha is_digit
is_alnum c = is_alpha c || is_digit c

-- `tolower`.
unfoldable pub to_lower : ℕ → ℕ
to_lower c = if leb b'A' c && leb c b'Z' then c + 32 else c

-- The strings that `std::getline` takes from a stream one after the other: they end at each
-- newline, and what stands behind the last newline is a line only if it is not empty.
unfoldable pub get_lines_from : Bytes → Bytes → List Bytes
get_lines_from line [] = if is_empty line then [] else line ∷ []
get_lines_from line (c ∷ rest) =
    let ended = line ∷ get_lines_from [] rest in
    let more = get_lines_from (line ++ c ∷ []) rest in if c == b'\n' then ended else more

unfoldable pub get_lines : Bytes → List Bytes
unfolding get_lines_from
get_lines content = get_lines_from [] content

-- A line that ends with a newline is taken.
pub get_lines_from-append :
    (line text rest : Bytes)
    → All (λ c. (c == b'\n') ≡ false) text
    → get_lines_from line (text ++ b'\n' ∷ rest) ≡ (line ++ text) ∷ get_lines_from [] rest
unfolding get_lines_from
get_lines_from-append line [] rest h = rw (append-nil line) refl
get_lines_from-append line (c ∷ text) rest h = rw (h.0) (
    get_lines_from-append (line ++ c ∷ []) text rest h.1
    ∙ ap (λ l. l ∷ get_lines_from [] rest) (append_assoc line (c ∷ []) text))
