-- ===== src/Base/Words.antt =====
-- C integers: unsigned words keep their wrap-around written out, and an `int` that may be negative
-- is a pair of constructors.
use Prim.Native.Nat.{ℕ, ◌+◌, ◌*◌, ◌/◌, ◌%◌, ◌^◌, ◌<◌}
use mathlib.Core.Path.{◌≡◌}
use mathlib.Core.Bool.{Bool, false}
use native.Mathlib.Omega.{arith}
use sc_xtcp.Base.Tests.{◌==◌}

-- (unsigned char) n
abbrev pub u8 : ℕ → ℕ
u8 n = n % 2 ^ 8

-- (u16_t) n
abbrev pub u16 : ℕ → ℕ
u16 n = n % 2 ^ 16

-- (unsigned int) n
abbrev pub u32 : ℕ → ℕ
u32 n = n % 2 ^ 32

-- `negsuc n` is -(n + 1).
pub data ℤ : Type 0 where
  pos : ℕ → ℤ
  negsuc : ℕ → ℤ

-- ~n at type `int`, for an unsigned short n that the promotion made an `int`
abbrev pub bit_not : ℕ → ℤ
bit_not n = negsuc n

abbrev pub int_eq : ℤ → ℤ → Bool
int_eq (pos a) (pos b) = a == b
int_eq (negsuc a) (negsuc b) = a == b
int_eq _ _ = false

-- The bytes of a 16-bit word change places.
abbrev pub htons : ℕ → ℕ
htons n = n % 256 * 256 + n / 256 % 256

htons-htons : (n : ℕ) → n < 2 ^ 16 → htons (htons n) ≡ n
htons-htons n h = omega arith
