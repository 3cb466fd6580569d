-- ===== src/WorkerConfig/Ranges.antt =====
-- The numbers that the checks of src/cWorkerConfig.cpp let through.
use pquery.Prelude.{
  ℕ, ◌^◌, ◌≤◌, ◌<◌, Bool, true, false, ◌≡◌, ◌≢◌, refl, ap, subst, ◌∙◌, arith, Bytes, codes, ℤ, pos,
  negsuc,
}
use native.Mathlib.Nat.{mod-eq_of_lt}
use pquery.IniReader.Reader.{IniReader}
use pquery.IniReader.Values.{Result, ok, throw, DbType, mysql, pgsql, no_db, get_integer}
use pquery.WorkerConfig.Checks.{
  Checked, valid, invalid, ◌>>=◌, ◌>>◌, refuse_if, caught, check_int_range, cast_to, get_checked,
}
use pquery.WorkerConfig.Setup.{get_port}

-- The configuration gives this number, and it is in range.
abbrev pub InRange : IniReader → Bytes → Bytes → ℕ → ℕ → ℕ → ℕ → Type 0
InRange r section name default_value min max n =
    (get_integer r section name (pos default_value) ≡ ok (pos n)) × (min ≤ n) × (n ≤ max)

abbrev pub default_port : DbType → ℕ
default_port pgsql = 5432
default_port _ = 3306

pub bind_valid :
    {A B : Type 0} (m : Checked A) (f : A → Checked B) {b : B}
    → (m >>= f) ≡ valid b
    → (a : A) × (m ≡ valid a) × (f a ≡ valid b)
bind_valid (valid a) f h = (a, refl, h)
bind_valid (invalid e) f h = absurd cc

pub then_valid :
    {B : Type 0} (m : Checked (Unit {0})) (k : Checked B) {b : B}
    → (m >> k) ≡ valid b
    → (m ≡ valid tt) × (k ≡ valid b)
then_valid (valid tt) k h = (refl, h)
then_valid (invalid e) k h = absurd cc

pub valid_same : {A : Type 0} {a b : A} → valid a ≡ valid b → a ≡ b
valid_same h = cc

caught-ok : {A : Type 0} (x : Result A) {a : A} → caught x ≡ valid a → x ≡ ok a
caught-ok (ok a) h = cc
caught-ok (throw e) h = absurd cc

refuse_if_valid : (b : Bool) (message : Bytes) → refuse_if b message ≡ valid tt → b ≡ false
refuse_if_valid true message h = absurd cc
refuse_if_valid false message h = refl

refuse_if_in : (b : Bool) (message : Bytes) → b ≡ false → refuse_if b message ≡ valid tt
refuse_if_in b message h = rw (h) refl

check_int_range_valid :
    (name : Bytes) (v : ℤ) (min max size : ℕ)
    → check_int_range name v (pos min) (pos max) ≡ valid tt
    → max < size
    → (v ≡ pos (cast_to size v)) × (min ≤ cast_to size v) × (cast_to size v ≤ max)
unfolding check_int_range cast_to
check_int_range_valid name (pos n) min max size h k =
    let b = refuse_if_valid _ _ h in
    let fits : min ≤ n × (n ≤ max) = (ground arith, ground arith) in
    rw (mod-eq_of_lt {n = n} {m = size} (omega arith)) (refl, fits.0, fits.1)
check_int_range_valid name (negsuc n) min max size h k =
    let b = refuse_if_valid _ _ h in absurd (ground arith)

check_int_range_in :
    (name : Bytes) (n min max : ℕ)
    → min ≤ n
    → n ≤ max
    → check_int_range name (pos n) (pos min) (pos max) ≡ valid tt
unfolding check_int_range
check_int_range_in name n min max h k = refuse_if_in _ _ (ground arith)

pub get_checked_sound :
    (r : IniReader) (section name : Bytes) (d min max size : ℕ) {v : ℕ}
    → max < size
    → get_checked r section name (pos d) (pos min) (pos max) size ≡ valid v
    → InRange r section name d min max v
unfolding get_checked
get_checked_sound r section name d min max size h e =
    let (value, found, rest) = bind_valid _ _ e in
    let (range, cast) = then_valid _ _ rest in
    let (same, low, high) = check_int_range_valid name value min max size range h in
    let v = valid_same cast in
    (
      caught-ok _ found ∙ ap ok (same ∙ ap pos v),
      subst (λ n. min ≤ n) v low,
      subst (λ n. n ≤ max) v high,
    )

pub get_checked_complete :
    (r : IniReader) (section name : Bytes) (d min max size : ℕ) {v : ℕ}
    → max < size
    → InRange r section name d min max v
    → get_checked r section name (pos d) (pos min) (pos max) size ≡ valid v
unfolding get_checked cast_to
get_checked_complete r section name d min max size {v} h (e, low, high) =
    rw (e, check_int_range_in name v min max low high)
      (ap valid (mod-eq_of_lt {n = v} {m = size} (omega arith)))

pub get_port_sound :
    (r : IniReader) (section : Bytes) (db : DbType) {v : ℕ}
    → db ≢ no_db
    → get_port r section db ≡ valid v
    → InRange r section (codes "port") (default_port db) 1 65535 v
unfolding get_port
get_port_sound r section mysql h e =
    get_checked_sound r section _ 3306 1 65535 (2 ^ 16) (omega arith) e
get_port_sound r section pgsql h e =
    get_checked_sound r section _ 5432 1 65535 (2 ^ 16) (omega arith) e
get_port_sound r section no_db h e = absurd (h refl)

pub get_port_complete :
    (r : IniReader) (section : Bytes) (db : DbType) {v : ℕ}
    → db ≢ no_db
    → InRange r section (codes "port") (default_port db) 1 65535 v
    → get_port r section db ≡ valid v
unfolding get_port
get_port_complete r section mysql h e =
    get_checked_complete r section _ 3306 1 65535 (2 ^ 16) (omega arith) e
get_port_complete r section pgsql h e =
    get_checked_complete r section _ 5432 1 65535 (2 ^ 16) (omega arith) e
get_port_complete r section no_db h e = absurd (h refl)
