-- ===== src/WorkerConfig/Checks.antt =====
-- The checks of `WorkerConfig` in src/cWorkerConfig.cpp. A check that fails reports one message and
-- ends `setupWorkerParams` with false: here it gives that message.
use pquery.Prelude.{
  ℕ, zero, suc, ◌+◌, ◌-◌, ◌/◌, ◌%◌, Bool, true, false, ◌||◌, [], ◌∷◌, ◌++◌, ltb, if◌then◌else◌,
  Bytes, codes, ℤ, pos, negsuc, ltb_ℤ,
}
use pquery.IniReader.Reader.{IniReader}
use pquery.IniReader.Values.{
  Exception, invalid_argument, overflow_error, Result, ok, throw, get_integer,
}

pub data Checked {ℓ} (A : Type ℓ) : Type ℓ where
  valid : A → Checked A
  invalid : Bytes → Checked A

infixl 5 ◌>>=◌ ◌>>◌
abbrev pub ◌>>=◌ {ℓ κ} : {A : Type ℓ} {B : Type κ} → Checked A → (A → Checked B) → Checked B
valid a >>= f = f a
invalid message >>= f = invalid message

abbrev pub ◌>>◌ {ℓ} : {B : Type ℓ} → Checked (Unit {0}) → Checked B → Checked B
checked >> next = checked >>= λ _. next

abbrev pub refuse_if : Bool → Bytes → Checked (Unit {0})
refuse_if true message = invalid message
refuse_if false message = valid tt

-- `std::to_string`. The number of digits is at most the number itself.
unfoldable pub digits_from : ℕ → ℕ → Bytes
digits_from zero n = []
digits_from (suc fuel) n =
    let front = digits_from fuel (n / 10) in
    if ltb n 10 then (n + b'0') ∷ [] else front ++ (n % 10 + b'0') ∷ []

unfoldable pub to_string : ℤ → Bytes
unfolding digits_from
to_string (pos n) = digits_from (suc n) n
to_string (negsuc n) = b'-' ∷ digits_from (suc (suc n)) (suc n)

unfoldable pub check_int_range : Bytes → ℤ → ℤ → ℤ → Checked (Unit {0})
unfolding to_string
check_int_range name value min max = refuse_if (ltb_ℤ value min || ltb_ℤ max value) (
    name
    ++ codes " = "
    ++ to_string value
    ++ codes " out of range ["
    ++ to_string min
    ++ codes ".."
    ++ to_string max
    ++ codes "]")

abbrev pub what : Exception → Bytes
what (invalid_argument message) = message
what (overflow_error message) = message

-- The `catch` of `setupWorkerParams`.
abbrev pub caught : {A : Type 0} → Result A → Checked A
caught (ok a) = valid a
caught (throw e) = invalid (what e)

-- `static_cast` to an unsigned type with `size` values.
unfoldable pub cast_to : ℕ → ℤ → ℕ
cast_to size (pos n) = n % size
cast_to size (negsuc n) = size - 1 - n % size

-- A number that is read, checked and cast.
unfoldable pub get_checked : IniReader → Bytes → Bytes → ℤ → ℤ → ℤ → ℕ → Checked ℕ
unfolding check_int_range cast_to
get_checked r section name default_value min max size = do
  value ← caught (get_integer r section name default_value)
  check_int_range name value min max
  valid (cast_to size value)
