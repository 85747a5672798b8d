-- ===== src/Common/Int.antt =====
-- Signed integers, and a u32 read as an i32.
use Prim.Native.Nat.{ℕ, ◌-◌, ◌^◌}
use sockd.Common.Tests.{ltb, if◌then◌else◌}

-- `negsuc n` is -(n + 1).
pub data ℤ : Type 0 where
  pos : ℕ → ℤ
  negsuc : ℕ → ℤ

-- `pid as i32`
unfoldable pub as_i32 : ℕ → ℤ
as_i32 n = if ltb n (2 ^ 31) then pos n else negsuc (2 ^ 32 - n - 1)
