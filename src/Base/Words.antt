-- ===== src/Base/Words.antt =====
-- Machine integers: an i32 and a u32 that are cast into one another.
use Prim.Native.Nat.{ℕ, ◌-◌, ◌%◌, ◌^◌, ◌<◌}
use mathlib.Core.Path.{◌≡◌}
use native.Mathlib.Omega.{arith}
use paperlog.Base.Tests.{ltb, if◌then◌else◌}

pub data ℤ : Type 0 where
  pos : ℕ → ℤ
  negsuc : ℕ → ℤ

-- `as u32`
unfoldable pub as_u32 : ℤ → ℕ
as_u32 (pos n) = n % 2 ^ 32
as_u32 (negsuc n) = 2 ^ 32 - 1 - n % 2 ^ 32

-- `as i32`, of a u32
unfoldable pub as_i32 : ℕ → ℤ
as_i32 n = if ltb n (2 ^ 31) then pos n else negsuc (2 ^ 32 - 1 - n)

-- A u32 comes back from an i32.
pub as_u32-as_i32 : (n : ℕ) → n < 2 ^ 32 → as_u32 (as_i32 n) ≡ n
unfolding as_u32 as_i32
as_u32-as_i32 n h = ground arith
