-- ===== src/Decoder/Cursor/Blocks.antt =====
-- Soft reads, and the entry into a block: when they give a value, and which.
use native.Mathlib.Decide.{dec_le}
use native.Mathlib.Nat.{add_assoc}
use radar_workstation.Common.{
  ℕ, ◌+◌, ◌≤◌, ◌≡◌, ap, ◌∙◌, some, none, Bytes, length, slice, leb, ◌==◌, if◌then◌else◌, arith,
  le→leb, lt→leb,
}
use radar_workstation.Decoder.Cursor.{Cursor, Parser, soft, for_block}
use radar_workstation.Decoder.Cursor.Reads.{Reads, advance, Reads-read_array4}

-- A soft read gives a value exactly when its bytes are there.
pub soft-Reads :
    {A : Type 0} {n : ℕ} {v : Bytes → ℕ → A} {m : Parser A} (r : Reads n v m) (c : Cursor)
    → c.pos ≤ length c.bytes
    → soft m c
      ≡ (if leb (c.pos + n) (length c.bytes) then some (v c.bytes c.pos, advance c n) else none)
soft-Reads {n} r c p = elim (dec_le (c.pos + n) (length c.bytes)) [
  | yes fits ↦ rw (r.room c fits) (rw (le→leb _ _ fits))
  | no over ↦
      let (e, q) = r.short c p (omega arith) in
      rw q (rw (lt→leb (c.pos + n) (length c.bytes) (omega arith)))
]

abbrev pub cursor_at : Bytes → ℕ → Cursor
cursor_at bytes pos = record { bytes = bytes; pos = pos }

-- A block is entered exactly when its pointer is not 0 and its id lies in the body.
pub for_block_lem :
    (body : Bytes) (ptr : ℕ)
    → for_block body ptr ≡ (
        if ptr == 0
        then none
        else if leb (ptr + 4) (length body)
        then some (slice body ptr 4, cursor_at body (ptr + 4))
        else none)
unfolding for_block
for_block_lem body ptr = elim (dec_le ptr (length body)) [
  | yes p ↦ ground (arith, soft-Reads Reads-read_array4 (cursor_at body ptr) p)
  | no p ↦ ground arith
]

-- Behind its id, a block is read exactly when all of it lies in the body.
pub soft-Reads_block :
    {A : Type 0} {n : ℕ} {v : Bytes → ℕ → A} {m : Parser A}
    → Reads n v m
    → (body : Bytes) (ptr : ℕ) → ptr + 4 ≤ length body
    → soft m (cursor_at body (ptr + 4)) ≡ (
        if leb (ptr + (4 + n)) (length body)
        then some (v body (ptr + 4), cursor_at body (ptr + (4 + n)))
        else none)
soft-Reads_block {n} {v} r body ptr h =
    soft-Reads r (cursor_at body (ptr + 4)) h
    ∙ ap (λ q. if leb q (length body) then some (v body (ptr + 4), cursor_at body q) else none)
        (add_assoc ptr 4 n)
