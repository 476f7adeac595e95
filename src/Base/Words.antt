-- ===== src/Base/Words.antt =====
-- Rust's `as` between integer types of 32 and 64 bits.
use Prim.Native.Nat.{ℕ, ◌-◌, ◌%◌, ◌^◌, ◌<◌}
use mathlib.Core.Path.{◌≡◌}
use native.Mathlib.Omega.{arith}
use pifp_stellar.Base.Tests.{ltb, if◌then◌else◌}
use pifp_stellar.Base.Int.{ℤ, pos, negsuc}

-- `u64 as i64`.
unfoldable pub i64_of_u64 : ℕ → ℤ
i64_of_u64 n = if ltb n (2 ^ 63) then pos n else negsuc (2 ^ 64 - 1 - n)

-- `u32 as i32`.
unfoldable pub i32_of_u32 : ℕ → ℤ
i32_of_u32 n = if ltb n (2 ^ 31) then pos n else negsuc (2 ^ 32 - 1 - n)

-- `as u32` of a signed integer.
unfoldable pub u32_of_int : ℤ → ℕ
u32_of_int (pos n) = n % 2 ^ 32
u32_of_int (negsuc n) = 2 ^ 32 - 1 - n % 2 ^ 32

-- `u64 as u32`.
unfoldable pub u32_of_u64 : ℕ → ℕ
u32_of_u64 n = n % 2 ^ 32

-- A u32 comes back from an i32.
pub u32-i32 : (n : ℕ) → n < 2 ^ 32 → u32_of_int (i32_of_u32 n) ≡ n
unfolding u32_of_int i32_of_u32
u32-i32 n h = ground arith
