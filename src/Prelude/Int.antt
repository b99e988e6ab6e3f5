-- ===== src/Prelude/Int.antt =====
-- Signed integers over the native numbers, and the conversions of C++ between widths.
use redis_cpp.Prelude.{ℕ, suc, ◌+◌, ◌-◌, ◌^◌, ◌%◌, ◌≤◌, ◌≡◌, Bool, arith, ltb, leb, if◌then◌else◌}

-- `negsuc n` is -(n + 1).
pub data ℤ : Type 0 where
  pos : ℕ → ℤ
  negsuc : ℕ → ℤ

abbrev pub pos_part : ℤ → ℕ
pos_part (pos n) = n
pos_part (negsuc n) = 0

abbrev pub neg_part : ℤ → ℕ
neg_part (pos n) = 0
neg_part (negsuc n) = suc n

-- a - b, as an integer.
abbrev pub sub_ℕ : ℕ → ℕ → ℤ
sub_ℕ a b = if leb b a then pos (a - b) else negsuc (b - a - 1)

infixl 65 ◌+ℤ◌
infix 50 ◌≤ℤ◌
abbrev pub ◌+ℤ◌ : ℤ → ℤ → ℤ
a +ℤ b = sub_ℕ (pos_part a + pos_part b) (neg_part a + neg_part b)

abbrev pub ◌≤ℤ◌ : ℤ → ℤ → Type 0
a ≤ℤ b = pos_part a + neg_part b ≤ pos_part b + neg_part a

abbrev pub ltb_ℤ : ℤ → ℤ → Bool
ltb_ℤ a b = ltb (pos_part a + neg_part b) (pos_part b + neg_part a)

abbrev pub leb_ℤ : ℤ → ℤ → Bool
leb_ℤ a b = leb (pos_part a + neg_part b) (pos_part b + neg_part a)

abbrev pub int_max : ℕ
int_max = 2 ^ 31 - 1

abbrev pub long_long_max : ℕ
long_long_max = 2 ^ 63 - 1

-- The signed number whose 32-bit pattern is `n`.
unfoldable pub int_of_bits : ℕ → ℤ
int_of_bits n = if leb n int_max then pos n else negsuc (2 ^ 32 - n - 1)

-- Conversion of a wider integer to `int`: modulo 2^32.
unfoldable pub to_int : ℤ → ℤ
unfolding int_of_bits
to_int (pos n) = int_of_bits (n % 2 ^ 32)
to_int (negsuc n) = int_of_bits (2 ^ 32 - 1 - n % 2 ^ 32)

abbrev pub IsInt : ℤ → Type 0
IsInt z = (pos_part z ≤ int_max) × (neg_part z ≤ suc int_max)

abbrev pub IsLongLong : ℤ → Type 0
IsLongLong z = (pos_part z ≤ long_long_max) × (neg_part z ≤ suc long_long_max)

-- A value that fits is converted to itself.
pub to_int-IsInt : (z : ℤ) → IsInt z → to_int z ≡ z
unfolding to_int
to_int-IsInt (pos n) h = ground arith
to_int-IsInt (negsuc n) h = ground arith

pub to_int_pos : (n : ℕ) → n ≤ int_max → to_int (pos n) ≡ pos n
to_int_pos n h = to_int-IsInt (pos n) (omega arith)
