-- ===== src/Base/Integer.antt =====
-- Go's signed integers, and their conversion to unsigned ones of 64 bits.
use Prim.Native.Nat.{ℕ, zero, suc, ◌-◌}
use mathlib.Core.Bool.{Bool, true, false}
use gosmo.Base.Tests.{ltb}

pub data ℤ : Type 0 where
  pos : ℕ → ℤ
  -- negsuc n is -(n + 1)
  negsuc : ℕ → ℤ

-- a < b
unfoldable pub int_ltb : ℤ → ℤ → Bool
int_ltb (pos a) (pos b) = ltb a b
int_ltb (pos a) (negsuc b) = false
int_ltb (negsuc a) (pos b) = true
int_ltb (negsuc a) (negsuc b) = ltb b a

-- 2^64, and math.MaxUint64
abbrev pub two_64 : ℕ
two_64 = 18446744073709551616

abbrev pub max_uint64 : ℕ
max_uint64 = 18446744073709551615

-- 2^63
abbrev pub two_63 : ℕ
two_63 = 9223372036854775808

-- uint64(a)
unfoldable pub uint64_of : ℤ → ℕ
uint64_of (pos n) = n
uint64_of (negsuc n) = two_64 - suc n

-- -(a + 1); at math.MaxInt64, where the sum wraps, this is what it wraps to
unfoldable pub complement : ℤ → ℤ
complement (pos n) = negsuc n
complement (negsuc n) = pos n

-- The number of this sign and size.
unfoldable pub signed : Bool → ℕ → ℤ
signed false n = pos n
signed true zero = pos zero
signed true (suc n) = negsuc n
