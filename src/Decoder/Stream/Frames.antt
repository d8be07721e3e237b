-- ===== src/Decoder/Stream/Frames.antt =====
-- One round of the walk by offsets: the header read cannot fail inside the loop.
use native.Mathlib.Nat.{add_assoc}
use radar_workstation.Common.{
  ℕ, ◌+◌, ◌≤◌, ◌<◌, ◌≡◌, ap, ◌∙◌, ok, and_then, Bytes, length, leb, if◌then◌else◌, arith,
  Bool-cases, inl, inr, leb→le, le→ltb,
}
use radar_workstation.Decoder.Cursor.{at}
use radar_workstation.Decoder.Cursor.Blocks.{cursor_at}
use radar_workstation.Decoder.Cursor.Reads.{
  Reads, Reads-bind, Reads-pure, Reads-of_eq, Reads-read_u8, Reads-read_u16_be, be_at, u8_at,
}
use radar_workstation.Decoder.Stream.{
  FrameHeader, read_frame_header, Frame, finished, skip, deliver, frame_of, frame_at,
}

-- The header of the message at an offset: the size at 12, the type at 15.
abbrev pub frame_header_at : Bytes → ℕ → FrameHeader
frame_header_at bs p = record { size_hw = be_at 2 bs (p + 12); msg_type = u8_at bs (p + 15) }

Reads-read_frame_header :
    Reads 4
      (λ bs p. record { size_hw = be_at 2 bs p; msg_type = u8_at bs (p + 3) })
      read_frame_header
unfolding read_frame_header
Reads-read_frame_header =
    Reads-of_eq
      (Reads-bind Reads-read_u16_be λ size_hw. Reads-bind Reads-read_u8 λ _.
        Reads-bind Reads-read_u8
          λ msg_type. Reads-pure (record { size_hw = size_hw; msg_type = msg_type }))
      (λ bs p. simp add_assoc)

frame_header_at_lem :
    (bytes : Bytes) (offset : ℕ)
    → offset + 28 ≤ length bytes
    → and_then (at bytes (offset + 12)) read_frame_header
      ≡ ok (frame_header_at bytes offset, cursor_at bytes (offset + 12 + 4))
unfolding at
frame_header_at_lem bytes offset fits = rw (le→ltb (length bytes) (offset + 12) (omega arith)) (
    Reads-read_frame_header.room (cursor_at bytes (offset + 12)) (omega arith)
    ∙ ap
        (λ q. ok (
          record { size_hw = be_at 2 bytes (offset + 12); msg_type = u8_at bytes q },
          cursor_at bytes (offset + 12 + 4),
        ))
        (add_assoc offset 12 3))

-- A round depends on the size at 12 and the type at 15 only, and stops where no header is left.
pub frame_at_lem :
    (bytes : Bytes) (offset : ℕ)
    → frame_at bytes offset ≡ (
        if leb (offset + 28) (length bytes)
        then frame_of bytes offset (frame_header_at bytes offset)
        else finished)
unfolding frame_at
frame_at_lem bytes offset =
    rw (add_assoc offset 12 16) (elim (Bool-cases (leb (offset + 28) (length bytes))) [
      | inl fits ↦ rw (fits, frame_header_at_lem bytes offset (leb→le _ _ fits))
      | inr over ↦ rw over
    ])

-- A round that goes on moves forward, from an offset where a header was left.
abbrev pub Proceeds : Bytes → ℕ → Frame → Type 0
Proceeds bytes offset (skip next) = (offset + 28 ≤ length bytes) × (offset < next)
Proceeds bytes offset (deliver t r next) = (offset + 28 ≤ length bytes) × (offset < next)
Proceeds bytes offset _ = Unit {0}

frame_of-Proceeds :
    (bytes : Bytes) (offset : ℕ) (h : FrameHeader)
    → offset + 28 ≤ length bytes
    → Proceeds bytes offset (frame_of bytes offset h)
unfolding frame_of
frame_of-Proceeds bytes offset h fits = ground arith

pub frame_at-Proceeds : (bytes : Bytes) (offset : ℕ) → Proceeds bytes offset (frame_at bytes offset)
frame_at-Proceeds bytes offset =
    rw frame_at_lem (elim (Bool-cases (leb (offset + 28) (length bytes))) [
      | inl fits ↦ rw fits (frame_of-Proceeds bytes offset _ (leb→le _ _ fits))
      | inr over ↦ rw over tt
    ])
