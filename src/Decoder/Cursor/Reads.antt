-- ===== src/Decoder/Cursor/Reads.antt =====
-- Fixed-size reads: what a sequence of reads consumes, and the value that it returns as a function
-- of the bytes and the start position.
use radar_workstation.Common.{
  ℕ, ◌+◌, ◌≤◌, ◌<◌, ◌≡◌, ap, ◌∙◌, ok, err, Bytes, length, get_or, get_elem?-eq_some,
  get_elem?-eq_none, slice, get_slice?-eq_some, get_slice?-eq_none, arith, String,
}
use native.Mathlib.Decide.{dec_le}
use radar_workstation.Common.Int.{as_i16}
use radar_workstation.Decoder.Cursor.{
  DecodeError, truncated, Cursor, Parser, pure, ◌>>=◌, read_u8, read_be, from_be_bytes, read_u16_be,
  read_i16_be, read_u32_be, read_f32_be, read_array4, read_bytes,
}

abbrev pub advance : Cursor → ℕ → Cursor
advance c n = record c { pos = c.pos + n }

-- `m` consumes exactly `n` bytes and returns `value`, if they are there; else it is an error.
pub record Reads {A : Type 0} (n : ℕ) (value : Bytes → ℕ → A) (m : Parser A) : Type 0 where
  pub room : (c : Cursor) → c.pos + n ≤ length c.bytes → m c ≡ ok (value c.bytes c.pos, advance c n)
  pub short :
      (c : Cursor)
      → c.pos ≤ length c.bytes
      → length c.bytes < c.pos + n
      → (e : DecodeError) × (m c ≡ err e)

abbrev pub u8_at : Bytes → ℕ → ℕ
u8_at bs p = get_or bs p 0

abbrev pub be_at : ℕ → Bytes → ℕ → ℕ
be_at n bs p = from_be_bytes (slice bs p n)

pub Reads-pure : {A : Type 0} (a : A) → Reads 0 (λ _ _. a) (pure a)
Reads-pure a = record {
  room = λ c h. ap (λ (p : ℕ). ok (a, record c { pos = p })) (omega arith);
  short = λ c h k. absurd (omega arith);
}

module _ {A B : Type 0} {n k : ℕ} {v : Bytes → ℕ → A} {w : A → Bytes → ℕ → B} {m : Parser A}
    {f : A → Parser B} (rm : Reads n v m) (rf : (a : A) → Reads k (w a) (f a)) where
  bind-room :
      (c : Cursor)
      → c.pos + (n + k) ≤ length c.bytes
      → (m >>= f) c ≡ ok (w (v c.bytes c.pos) c.bytes (c.pos + n), advance c (n + k))
  bind-room c h = rw (rm.room c (omega arith)) (
      (rf (v c.bytes c.pos)).room (advance c n) (omega arith)
      ∙ ap (λ (p : ℕ). ok (w (v c.bytes c.pos) c.bytes (c.pos + n), record c { pos = p }))
          (omega arith))

  bind-short :
      (c : Cursor)
      → c.pos ≤ length c.bytes
      → length c.bytes < c.pos + (n + k)
      → (e : DecodeError) × ((m >>= f) c ≡ err e)
  bind-short c p h = elim (dec_le (c.pos + n) (length c.bytes)) [
    | yes fits ↦
        let (e, q) = (rf (v c.bytes c.pos)).short (advance c n) fits (omega arith) in
        (e, rw (rm.room c fits) q)
    | no over ↦ let (e, q) = rm.short c p (omega arith) in (e, rw q)
  ]

  -- Reads in sequence consume the sum, and each starts where the one before it stopped.
  pub Reads-bind : Reads (n + k) (λ bs p. w (v bs p) bs (p + n)) (m >>= f)
  Reads-bind = record { room = bind-room; short = bind-short }

pub Reads-map :
    {A B : Type 0} {n : ℕ} {v : Bytes → ℕ → A} {m : Parser A}
    → Reads n v m
    → (f : A → B) → Reads n (λ bs p. f (v bs p)) (m >>= λ a. pure (f a))
Reads-map {n} rm f = record {
  room = λ c h. rw (rm.room c h);
  short = λ c p h. let (e, q) = rm.short c p h in (e, rw q);
}

pub Reads-read_u8 : Reads 1 u8_at read_u8
unfolding read_u8
Reads-read_u8 = record {
  room = λ c h. rw (get_elem?-eq_some c.bytes c.pos 0 (omega arith));
  short = λ c p h. (truncated "read_u8", rw (get_elem?-eq_none c.bytes c.pos (omega arith)));
}

pub Reads-read_be : (n : ℕ) (context : String) → Reads n (λ bs p. slice bs p n) (read_be n context)
unfolding read_be
Reads-read_be n context = record {
  room = λ c h. rw (get_slice?-eq_some c.bytes c.pos n h);
  short = λ c p h. (truncated context, rw (get_slice?-eq_none c.bytes c.pos n h));
}

pub Reads-read_u16_be : Reads 2 (be_at 2) read_u16_be
unfolding read_u16_be
Reads-read_u16_be = Reads-map (Reads-read_be 2 "read_u16_be") from_be_bytes

pub Reads-read_i16_be : Reads 2 (λ bs p. as_i16 (be_at 2 bs p)) read_i16_be
unfolding read_i16_be
Reads-read_i16_be = Reads-map Reads-read_u16_be as_i16

pub Reads-read_u32_be : Reads 4 (be_at 4) read_u32_be
unfolding read_u32_be
Reads-read_u32_be = Reads-map (Reads-read_be 4 "read_u32_be") from_be_bytes

pub Reads-read_f32_be : Reads 4 (be_at 4) read_f32_be
unfolding read_f32_be
Reads-read_f32_be = Reads-map (Reads-read_be 4 "read_f32_be") from_be_bytes

pub Reads-read_array4 : Reads 4 (λ bs p. slice bs p 4) read_array4
unfolding read_array4
Reads-read_array4 = Reads-read_be 4 "read_array4"

pub Reads-read_bytes : (n : ℕ) → Reads n (λ bs p. slice bs p n) (read_bytes n)
unfolding read_bytes
Reads-read_bytes n = Reads-read_be n "read_bytes"

-- The same read with its value written another way.
pub Reads-of_eq :
    {A : Type 0} {n : ℕ} {v w : Bytes → ℕ → A} {m : Parser A}
    → Reads n v m
    → ((bs : Bytes) (p : ℕ) → v bs p ≡ w bs p)
    → Reads n w m
Reads-of_eq {n} r e = record {
  room = λ c h. r.room c h ∙ ap (λ a. ok (a, advance c n)) (e c.bytes c.pos);
  short = r.short;
}
