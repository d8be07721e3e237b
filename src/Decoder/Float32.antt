-- ===== src/Decoder/Float32.antt =====
-- The `f32` arithmetic that the decoder calls, on bit patterns. The hardware's rounding is not
-- modelled: the operations are a parameter of the functions that use them.
use radar_workstation.Common.{ℕ}
use radar_workstation.Decoder.Cursor.{F32}

pub record FloatOps : Type 0 where
  -- `n as f32`
  pub of_int : ℕ → F32
  pub sub : F32 → F32 → F32
  pub mul : F32 → F32 → F32
  pub div : F32 → F32 → F32

-- The literals of the source, as IEEE 754 bit patterns.
abbrev pub f32_8 : F32
f32_8 = 0x41000000

abbrev pub f32_100 : F32
f32_100 = 0x42c80000

abbrev pub f32_360 : F32
f32_360 = 0x43b40000

abbrev pub f32_65536 : F32
f32_65536 = 0x47800000
