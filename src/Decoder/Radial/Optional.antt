-- ===== src/Decoder/Radial/Optional.antt =====
-- The optional blocks against their layouts: an unreadable block is an absent one.
use native.Mathlib.Decide.{dec_le}
use radar_workstation.Common.{
  ℕ, ◌+◌, ◌≡◌, Bool, some, none, Bytes, length, slice, leb, ◌==◌, if◌then◌else◌, ◌&&◌, arith, not,
}
use radar_workstation.Common.Maybe.{◌>>=◌}
use radar_workstation.Common.Text.{codes, bytes_eq}
use radar_workstation.Decoder.Cursor.{Parser, soft, for_block}
use radar_workstation.Decoder.Cursor.Reads.{Reads}
use radar_workstation.Decoder.Cursor.Blocks.{soft-Reads_block, for_block_lem}
use radar_workstation.Decoder.Float32.{FloatOps}
use radar_workstation.Decoder.Headers.Layout.{rvol_at, Reads-read_rvol, rrad_at, Reads-read_rrad}
use radar_workstation.Decoder.Radial.{parse_rvol, convert_rrad, parse_rrad}

-- A block of `size` bytes with this id, at a pointer that is not 0.
abbrev pub has_block : Bytes → ℕ → Bytes → ℕ → Bool
has_block body ptr id size =
    not (ptr == 0) && leb (ptr + size) (length body) && bytes_eq (slice body ptr 4) id

-- A block parser: enter the block, test its id, read the rest softly.
block_lem :
    {A B : Type 0} {n : ℕ} {v : Bytes → ℕ → A} {m : Parser A}
    → Reads n v m
    → (g : A → B) (id body : Bytes) (ptr : ℕ)
    → (for_block body ptr >>= λ r.
        if bytes_eq r.0 id then (soft m r.1 >>= λ q. some (g q.0)) else none)
      ≡ (if has_block body ptr id (4 + n) then some (g (v body (ptr + 4))) else none)
block_lem r g id body ptr = rw for_block_lem (elim (dec_le (ptr + 4) (length body)) [
  | yes fits ↦ ground (arith, soft-Reads_block r body ptr fits)
  | no over ↦ ground arith
])

-- The RVOL block is taken exactly when all its 44 bytes are there, field by field at its offset.
pub parse_rvol_lem :
    (body : Bytes) (ptr : ℕ)
    → parse_rvol body ptr
      ≡ (if has_block body ptr (codes "RVOL") 44 then some (rvol_at body (ptr + 4)) else none)
unfolding parse_rvol
parse_rvol_lem body ptr =
    block_lem Reads-read_rvol (λ parameters. parameters) (codes "RVOL") body ptr

-- The RRAD block likewise, its 18 bytes converted to physical units.
pub parse_rrad_lem :
    (f : FloatOps) (body : Bytes) (ptr : ℕ)
    → parse_rrad f body ptr ≡ (
        if has_block body ptr (codes "RRAD") 18
        then some (convert_rrad f (rrad_at body (ptr + 4)))
        else none)
unfolding parse_rrad
parse_rrad_lem f body ptr = block_lem Reads-read_rrad (convert_rrad f) (codes "RRAD") body ptr
