-- ===== src/Prelude/Int.antt =====
-- Signed integers over the native numbers, and `int64_t`.
use Prim.Native.Nat.{ℕ, suc, ◌+◌, ◌-◌, ◌*◌, ◌≤◌}
use mathlib.Core.Bool.{Bool}
use pquery.Prelude.Tests.{ltb}

-- `negsuc n` is -(n + 1).
pub data ℤ : Type 0 where
  pos : ℕ → ℤ
  negsuc : ℕ → ℤ

abbrev pub pos_part : ℤ → ℕ
pos_part (pos n) = n
pos_part (negsuc n) = 0

abbrev pub neg_part : ℤ → ℕ
neg_part (pos n) = 0
neg_part (negsuc n) = suc n

infix 50 ◌≤ℤ◌
abbrev pub ◌≤ℤ◌ : ℤ → ℤ → Type 0
a ≤ℤ b = pos_part a + neg_part b ≤ pos_part b + neg_part a

abbrev pub ltb_ℤ : ℤ → ℤ → Bool
ltb_ℤ a b = ltb (pos_part a + neg_part b) (pos_part b + neg_part a)

-- 2^63, one more than the largest `int64_t`.
abbrev pub int64_bound : ℕ
int64_bound = 9223372036854775808

abbrev pub int64_max : ℤ
int64_max = pos 9223372036854775807

abbrev pub int64_min : ℤ
int64_min = negsuc 9223372036854775807

abbrev pub IsInt64 : ℤ → Type 0
IsInt64 a = (int64_min ≤ℤ a) × (a ≤ℤ int64_max)

-- -n.
abbrev pub neg : ℕ → ℤ
neg ℕ.zero = pos 0
neg (suc n) = negsuc n

-- a * m for a positive number m.
abbrev pub scale : ℤ → ℕ → ℤ
scale (pos n) m = pos (n * m)
scale (negsuc n) m = negsuc (suc n * m - 1)
