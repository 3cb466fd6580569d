-- ===== src/Clients/PgsqlErrors.antt =====
-- The error messages and the row counts of src/cPgsqlDatabase.cpp.
use pquery.Prelude.{
  ℕ, zero, suc, ◌<◌, false, [], ◌∷◌, ◌++◌, ◌≡◌, refl, ap, none, some, arith, ◌==◌, Bytes, codes,
  All, drop, pos, int64_bound,
}
use pquery.WorkerConfig.Checks.{cast_to}
use pquery.WorkerConfig.Decimals.{extract_int-to_string, to_string_not_empty}
use pquery.Clients.PgsqlOutput.{first_line, cut, get_error_string, get_affected_rows, number}

abbrev pub InLine : ℕ → Type 0
InLine c = (c == b'\n') ≡ false

-- The message in front of its first newline, without "ERROR" in front.
first_line-append :
    (line rest : Bytes) → All InLine line → first_line (line ++ b'\n' ∷ rest) ≡ some line
unfolding first_line
first_line-append [] rest h = refl
first_line-append (c ∷ line) rest h = rw (h.0, first_line-append line rest h.1) refl

first_line-none : (line : Bytes) → All InLine line → first_line line ≡ none
unfolding first_line
first_line-none [] h = refl
first_line-none (c ∷ line) h = rw (h.0, first_line-none line h.1) refl

drop-InLine : (n : ℕ) (line : Bytes) → All InLine line → All InLine (drop n line)
drop-InLine zero line h = h
drop-InLine (suc n) [] h = tt
drop-InLine (suc n) (c ∷ line) h = drop-InLine n line h.1

-- Of a message with more lines the first is given, with the status in front where there is a result;
-- of one with no newline all of it, without the status.
pub get_error_string_line :
    (status line rest : Bytes)
    → All InLine line
    → let message = codes "ERROR" ++ (line ++ b'\n' ∷ rest) in
      (get_error_string (some status) message ≡ status ++ line)
      × (get_error_string none message ≡ line)
      × (get_error_string (some status) (codes "ERROR" ++ line) ≡ line)
unfolding get_error_string
get_error_string_line status line rest h = (
  ap (cut (some status) (line ++ b'\n' ∷ rest)) (first_line-append line rest h),
  ap (cut none (line ++ b'\n' ∷ rest)) (first_line-append line rest h),
  ap (cut (some status) line) (first_line-none line h),
)

-- The number of rows that libpq writes is given back, where it is one of `int64_t`.
pub get_affected_rows-number :
    (n : ℕ) → n < int64_bound → get_affected_rows (some (number n)) ≡ some n
unfolding get_affected_rows number cast_to
get_affected_rows-number n h =
    rw (to_string_not_empty (pos n), extract_int-to_string (pos n) (omega arith, omega arith))
      (ap some (omega arith))
