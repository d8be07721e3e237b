-- ===== src/Http/Response/SizeLine.antt =====
-- The size line of a chunk: what it announces and how much it takes.
use radar_workstation.Common.{
  ℕ, ◌-◌, ◌^◌, ◌≤◌, ◌<◌, ◌≡◌, refl, Bool, true, false, not, ◌||◌, Option, none, some, [], ◌∷◌,
  Bytes, length, length-take, take, leb, ltb, ltb→lt, ◌==◌, if◌then◌else◌, any, all, get_or, min,
  Result, ok, err, arith, Bool-cases, Option-cases, inl, inr,
}
use radar_workstation.Http.{HttpError}
use radar_workstation.Http.Ascii.{is_hexdigit, position, number_onto, hexdigit_value}
use radar_workstation.Http.Response.{size_line, parse_chunk_size_line, max_chunk_header_line}

-- A size line within the buffer and the limit, of one digit at least; or room for more bytes.
abbrev pub Sized : ℕ → Result HttpError (Option (ℕ × ℕ)) → Type 0
Sized n (err e) = Unit {0}
Sized n (ok none) = n < max_chunk_header_line
Sized n (ok (some (size, consumed))) =
    (size < 2 ^ 64) × (3 ≤ consumed) × (consumed ≤ n) × (consumed ≤ max_chunk_header_line)

position-bound : (p : ℕ → Bool) (bs : Bytes) (i : ℕ) → position p bs ≡ some i → i < length bs
unfolding position
position-bound p [] i h = cc
position-bound p (b ∷ bs) i h = elim (Bool-cases (p b)) [
  | inl here ↦ ground (arith, rw (here, position) at h)
  | inr later ↦ elim (Option-cases (position p bs)) [
    | inl nowhere ↦ cc (rw (later, nowhere) at h)
    | inr (j, found) ↦ ground (arith, position-bound p bs j found, rw (later, found) at h)
  ]
]

guard-Sized :
    (n : ℕ) (b : Bool) (e : HttpError) (r : Result HttpError (Option (ℕ × ℕ)))
    → (b ≡ false → Sized n r)
    → Sized n (if b then err e else r)
guard-Sized n true e r h = tt
guard-Sized n false e r h = h refl

size_line-Sized :
    (buf : Bytes) (nl : ℕ)
    → nl < length buf
    → nl < max_chunk_header_line
    → Sized (length buf) (size_line buf nl)
unfolding size_line
size_line-Sized buf nl h k =
    let line = take (nl - 1) buf in
    let size = number_onto 16 hexdigit_value 0 line in
    guard-Sized (length buf) (nl == 0 || not (get_or buf (nl - 1) 0 == 13)) _ _ (λ _.
      guard-Sized (length buf) (any (λ b. b == 13) line) _ _ (λ _.
        guard-Sized (length buf) (any (λ b. b == 59) line) _ _ (λ _.
          guard-Sized (length buf)
            (length line == 0 || ltb 16 (length line) || not (all is_hexdigit line)) _ _
            (λ digits. elim (Bool-cases (ltb size (2 ^ 64))) [
              | inr over ↦ rw over tt
              | inl fits ↦
                  let some_digit : 1 ≤ length line = ground (arith, digits) in
                  rw fits (
                    ltb→lt size (2 ^ 64) fits,
                    omega (arith, some_digit, length-take (nl - 1) buf),
                    omega arith,
                    omega arith,
                  )
            ]))))

-- A size line that is accepted announces a size below 2 ^ 64, has a digit and its line end at least,
-- and lies within the buffer and the limit on such lines; and the parser asks for more bytes only
-- while the buffer is below that limit.
pub parse_chunk_size_line-Sized : (buf : Bytes) → Sized (length buf) (parse_chunk_size_line buf)
unfolding parse_chunk_size_line
parse_chunk_size_line-Sized buf =
    let window = take (min (length buf) max_chunk_header_line) buf in
    elim (Option-cases (position (λ b. b == 10) window)) [
      | inr (nl, found) ↦
          let inside : nl < length window = position-bound (λ b. b == 10) window nl found in
          rw (found, parse_chunk_size_line)
            (size_line-Sized buf nl
              (omega (arith, inside, length-take (min (length buf) max_chunk_header_line) buf))
              (omega (arith, inside, length-take (min (length buf) max_chunk_header_line) buf)))
      | inl nowhere ↦ elim (Bool-cases (leb max_chunk_header_line (length buf))) [
        | inl full ↦ rw (nowhere, parse_chunk_size_line) (rw full tt)
        | inr more ↦ rw (nowhere, parse_chunk_size_line) (rw more (ground arith))
      ]
    ]
