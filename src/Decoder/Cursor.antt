-- ===== src/Decoder/Cursor.antt =====
-- crates/nexrad-decoder/src/parse/cursor.rs and error.rs. A cursor is a byte slice and a position;
-- a method is a function from the cursor to its result and the moved cursor.
pub mod Reads
pub mod Blocks
use radar_workstation.Common.{
  ℕ, zero, ◌+◌, ◌-◌, ◌*◌, ◌^◌, String, Option, none, some, Result, ok, err, to_option, ok_or,
  and_then, Bytes, length, get_elem?, get_slice?, leb, ltb, if◌then◌else◌, List, [], ◌∷◌, ◌&&◌,
  ◌==◌,
}
use radar_workstation.Common.Int.{ℤ, as_i16}

pub data DecodeError : Type 0 where
  truncated : String → DecodeError

pub record Cursor : Type 0 where
  pub bytes : Bytes
  pub pos : ℕ

-- A method that may fail, and moves the cursor.
abbrev pub Parser : Type 0 → Type 0
Parser A = Cursor → Result DecodeError (A × Cursor)

abbrev pub pure : {A : Type 0} → A → Parser A
pure a c = ok (a, c)

infixl 5 ◌>>=◌ ◌>>◌
abbrev pub ◌>>=◌ : {A B : Type 0} → Parser A → (A → Parser B) → Parser B
◌>>=◌ m f c = and_then (m c) (λ r. f r.0 r.1)

abbrev pub ◌>>◌ : {A B : Type 0} → Parser A → Parser B → Parser B
m >> n = m >>= λ _. n

-- Reads that give `None` instead of an error: `.ok()?` in a function that returns an `Option`.
abbrev pub Soft : Type 0 → Type 0
Soft A = Cursor → Option (A × Cursor)

abbrev pub soft : {A : Type 0} → Parser A → Soft A
soft m c = to_option (m c)

abbrev pub new : Bytes → Cursor
new bytes = record { bytes = bytes; pos = 0 }

unfoldable pub at : Bytes → ℕ → Result DecodeError Cursor
at bytes offset =
    if ltb (length bytes) offset
    then err (truncated "cursor::at")
    else ok (record { bytes = bytes; pos = offset })

abbrev pub position : Cursor → ℕ
position c = c.pos

abbrev pub remaining : Cursor → ℕ
remaining c = length c.bytes - c.pos

abbrev pub usize_mod : ℕ
usize_mod = 2 ^ 64

-- `checked_add`, then the test against the length.
unfoldable pub skip : ℕ → Parser (Unit {0})
skip n c =
    if ltb (c.pos + n) usize_mod && leb (c.pos + n) (length c.bytes)
    then ok (tt, record c { pos = c.pos + n })
    else err (truncated "skip")

unfoldable pub read_u8 : Parser ℕ
read_u8 c =
    and_then (ok_or (truncated "read_u8") (get_elem? c.bytes c.pos))
      (λ b. ok (b, record c { pos = c.pos + 1 }))

-- `read_be::<N>`
unfoldable pub read_be : ℕ → String → Parser Bytes
read_be n context c =
    and_then (ok_or (truncated context) (get_slice? c.bytes c.pos n))
      (λ s. ok (s, record c { pos = c.pos + n }))

-- `from_be_bytes`, the first byte the most significant.
from_be_bytes_onto : ℕ → Bytes → ℕ
from_be_bytes_onto acc [] = acc
from_be_bytes_onto acc (b ∷ rest) = from_be_bytes_onto (acc * 256 + b) rest

unfoldable pub from_be_bytes : Bytes → ℕ
unfolding from_be_bytes_onto
from_be_bytes bs = from_be_bytes_onto 0 bs

unfoldable pub read_u16_be : Parser ℕ
read_u16_be = do s ← read_be 2 "read_u16_be"; pure (from_be_bytes s)

unfoldable pub read_i16_be : Parser ℤ
read_i16_be = do v ← read_u16_be; pure (as_i16 v)

unfoldable pub read_u32_be : Parser ℕ
read_u32_be = do s ← read_be 4 "read_u32_be"; pure (from_be_bytes s)

-- An `f32` stands for its 32 bits: `f32::from_be_bytes` keeps them as they are.
abbrev pub F32 : Type 0
F32 = ℕ

unfoldable pub read_f32_be : Parser F32
read_f32_be = do s ← read_be 4 "read_f32_be"; pure (from_be_bytes s)

unfoldable pub read_array4 : Parser Bytes
read_array4 = read_be 4 "read_array4"

unfoldable pub read_bytes : ℕ → Parser Bytes
read_bytes n = read_be n "read_bytes"

-- `Cursor::for_block`: a cursor at `ptr`, behind the block's four-byte id.
unfoldable pub for_block : Bytes → ℕ → Option (Bytes × Cursor)
unfolding at
for_block body ptr =
    if ptr == 0
    then none
    else elim (at body ptr) [ ok c ↦ to_option (read_array4 c) | err e ↦ none ]
