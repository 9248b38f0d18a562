-- ===== src/Base/Int.antt =====
-- Signed integers over the native numbers, and the ranges of the machine's integers.
use Prim.Native.Nat.{ℕ, zero, suc, ◌-◌, ◌%◌}
use mathlib.Core.Path.{◌≡◌}
use mathlib.Core.Bool.{Bool, true, false}
use native.Mathlib.Omega.{arith}
use time_agent.Base.Tests.{ltb, if◌then◌else◌}

-- `negsuc n` is -(n + 1).
pub data ℤ : Type 0 where
  pos : ℕ → ℤ
  negsuc : ℕ → ℤ

abbrev pub two_31 : ℕ
two_31 = 2147483648

abbrev pub two_32 : ℕ
two_32 = 4294967296

abbrev pub two_63 : ℕ
two_63 = 9223372036854775808

abbrev pub two_64 : ℕ
two_64 = 18446744073709551616

-- Sign and magnitude to an integer.
abbrev pub signed : Bool → ℕ → ℤ
signed false n = pos n
signed true zero = pos 0
signed true (suc n) = negsuc n

-- The value lies in [-2^63, 2^63).
abbrev pub fits_64 : ℤ → Bool
fits_64 (pos n) = ltb n two_63
fits_64 (negsuc n) = ltb n two_63

-- The value lies in [-2^31, 2^31).
abbrev pub fits_32 : ℤ → Bool
fits_32 (pos n) = ltb n two_31
fits_32 (negsuc n) = ltb n two_31

-- What glibc's `strtol` returns out of range: the nearest end of the range.
unfoldable pub saturate_64 : ℤ → ℤ
saturate_64 (pos n) = if ltb n two_63 then pos n else pos (two_63 - 1)
saturate_64 (negsuc n) = if ltb n two_63 then negsuc n else negsuc (two_63 - 1)

-- The 32-bit pattern `n` read as an `int`.
abbrev pub of_pattern_32 : ℕ → ℤ
of_pattern_32 n = if ltb n two_31 then pos n else negsuc (two_32 - 1 - n)

-- Conversion to `int`: the low 32 bits.
unfoldable pub to_int_32 : ℤ → ℤ
to_int_32 (pos n) = of_pattern_32 (n % two_32)
to_int_32 (negsuc n) = of_pattern_32 (two_32 - 1 - n % two_32)

-- A `uint64_t` read as an `int64_t`.
unfoldable pub to_int_64 : ℕ → ℤ
to_int_64 n = if ltb n two_63 then pos n else negsuc (two_64 - 1 - n)

pub saturate_64-fits_64 : (z : ℤ) → fits_64 (saturate_64 z) ≡ true
unfolding saturate_64
saturate_64-fits_64 (pos n) = ground arith
saturate_64-fits_64 (negsuc n) = ground arith

pub saturate_64_id : (z : ℤ) → fits_64 z ≡ true → saturate_64 z ≡ z
unfolding saturate_64
saturate_64_id (pos n) h = ground arith
saturate_64_id (negsuc n) h = ground arith

pub to_int_32_id : (z : ℤ) → fits_32 z ≡ true → to_int_32 z ≡ z
unfolding to_int_32
to_int_32_id (pos n) h = ground arith
to_int_32_id (negsuc n) h = ground arith

pub to_int_32-fits_32 : (z : ℤ) → fits_32 (to_int_32 z) ≡ true
unfolding to_int_32
to_int_32-fits_32 (pos n) = ground arith
to_int_32-fits_32 (negsuc n) = ground arith
