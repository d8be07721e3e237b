-- ===== src/Common/Int.antt =====
-- Signed integers over the native numbers. `negsuc n` is -(n + 1).
use Prim.Native.Nat.{ℕ, ◌-◌}
use radar_workstation.Common.Bools.{ltb, if◌then◌else◌}

pub data ℤ : Type 0 where
  pos : ℕ → ℤ
  negsuc : ℕ → ℤ

-- `v as i16` of a `u16`, in two's complement.
unfoldable pub as_i16 : ℕ → ℤ
as_i16 v = if ltb v 32768 then pos v else negsuc (65535 - v)

-- `v as i32` of a `u32`.
unfoldable pub as_i32 : ℕ → ℤ
as_i32 v = if ltb v 2147483648 then pos v else negsuc (4294967295 - v)
