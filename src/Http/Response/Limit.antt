-- ===== src/Http/Response/Limit.antt =====
-- The head parser's limits.
use native.Mathlib.Decide.{dec_le}
use radar_workstation.Common.{
  ℕ, zero, suc, ◌+◌, ◌-◌, ◌≤◌, ◌<◌, ◌≡◌, inl, inr, false, Option, none, some, List, [], ◌∷◌, ◌++◌,
  Bytes, length, ltb, ◌==◌, get_or, min, Result, ok, err, arith, Bool-cases, Result-cases, le→leb,
  lt→leb, subst,
}
use radar_workstation.Http.{Limits, HttpError}
use radar_workstation.Http.Ascii.{within}
use radar_workstation.Http.Response.{
  Head, BodyFraming, no_body, content_length, chunked, HeaderState, no_headers, apply_headers,
  parse_status_line, Scanned, line_at, push_line, scan_lines, framing_of, framed_twice, finish_head,
  parse_lines, parse_scanned, parse_head,
}

abbrev pub FramingOk : Limits → BodyFraming → Type 0
FramingOk limits no_body = Unit {0}
FramingOk limits (content_length n) = n ≤ limits.max_body_bytes
FramingOk limits chunked = Unit {0}

-- A head within the limits, in a buffer of this many bytes; or room for more bytes.
abbrev pub Accepted : Limits → ℕ → Result HttpError (Option Head) → Type 0
Accepted limits size (err e) = Unit {0}
Accepted limits size (ok none) = size < limits.max_head_bytes
Accepted limits size (ok (some h)) =
    (h.head_len ≤ size)
    × (h.head_len ≤ limits.max_head_bytes)
    × FramingOk limits h.framing
    × (within 100 199 h.status ≡ false)

abbrev EndsBy : ℕ → Scanned → Type 0
EndsBy bound (err e) = Unit {0}
EndsBy bound (ok none) = Unit {0}
EndsBy bound (ok (some (lines, head_len))) = head_len ≤ bound

push_line-EndsBy :
    (m i bound : ℕ) (lines : List Bytes) (line : Bytes) (rest : List Bytes → Scanned)
    → i < bound
    → ((ls : List Bytes) → EndsBy bound (rest ls))
    → EndsBy bound (push_line m i lines line rest)
unfolding push_line
push_line-EndsBy m i bound lines [] rest h k = omega arith
push_line-EndsBy m i bound lines (b ∷ line) rest h k =
    elim (Bool-cases (ltb m (length (lines ++ (b ∷ line) ∷ []) - 1))) [
      | inl many ↦ rw many tt
      | inr few ↦ rw few (k (lines ++ (b ∷ line) ∷ []))
    ]

scan_lines-EndsBy :
    (buf : Bytes) (m n i line_start : ℕ) (lines : List Bytes) (bound : ℕ)
    → i + n ≤ bound
    → EndsBy bound (scan_lines buf m n i line_start lines)
unfolding scan_lines
scan_lines-EndsBy buf m zero i line_start lines bound h = tt
scan_lines-EndsBy buf m (suc n) i line_start lines bound h =
    elim (Bool-cases (get_or buf i 0 == 10)) [
      | inr other ↦
          rw (other, scan_lines)
            (scan_lines-EndsBy buf m n (i + 1) line_start lines bound (omega arith))
      | inl newline ↦
          rw (newline, scan_lines)
            (elim (Result-cases (line_at buf line_start i)) [
              | inr (e, failed) ↦ rw failed tt
              | inl (line, cut) ↦ rw cut (
                  push_line-EndsBy m i bound lines line (scan_lines buf m n (i + 1) (i + 1))
                    (omega arith)
                    (λ ls. scan_lines-EndsBy buf m n (i + 1) (i + 1) ls bound (omega arith)))
            ])
    ]

abbrev FramingResultOk : Limits → Result HttpError BodyFraming → Type 0
FramingResultOk limits (err e) = Unit {0}
FramingResultOk limits (ok f) = FramingOk limits f

framing_of-FramingOk :
    (limits : Limits) (status : ℕ) (s : HeaderState)
    → FramingResultOk limits (framing_of limits status s)
unfolding framing_of
framing_of-FramingOk limits status s = ground arith

module _ (limits : Limits) (size head_len : ℕ)
    (fits : head_len ≤ min size limits.max_head_bytes) where
  finish_head-Accepted :
      (status : ℕ) (s : HeaderState) → Accepted limits size (finish_head limits head_len status s)
  unfolding finish_head
  finish_head-Accepted status s = elim (Bool-cases (framed_twice s)) [
    | inl both ↦ rw (both, finish_head) tt
    | inr one ↦ elim (Bool-cases (within 100 199 status)) [
      | inl informational ↦ rw (one, finish_head) (rw informational tt)
      | inr final ↦ elim (Result-cases (framing_of limits status s)) [
        | inr (e, failed) ↦ rw (one, finish_head) (rw final (rw failed tt))
        | inl (framing, framed) ↦
            rw (one, finish_head)
              (rw final (
                rw framed (
                  omega arith,
                  omega arith,
                  subst (FramingResultOk limits) framed (framing_of-FramingOk limits status s),
                  final,
                )))
      ]
    ]
  ]

  parse_lines-Accepted :
      (lines : List Bytes) → Accepted limits size (parse_lines limits lines head_len)
  unfolding parse_lines
  parse_lines-Accepted [] = tt
  parse_lines-Accepted (status_line ∷ lines) = elim (Result-cases (parse_status_line status_line)) [
    | inr (e, failed) ↦ rw failed tt
    | inl (status, read) ↦ rw read (elim (Result-cases (apply_headers lines no_headers)) [
      | inr (e, failed) ↦ rw failed tt
      | inl (s, applied) ↦ rw applied (finish_head-Accepted status s)
    ])
  ]

parse_scanned-Accepted :
    (limits : Limits) (buf : Bytes) (s : Option (List Bytes × ℕ))
    → EndsBy (min (length buf) limits.max_head_bytes) (ok s)
    → Accepted limits (length buf) (parse_scanned limits buf s)
unfolding parse_scanned
parse_scanned-Accepted limits buf (some (lines, head_len)) h =
    parse_lines-Accepted limits (length buf) head_len h lines
parse_scanned-Accepted limits buf none h = elim (dec_le limits.max_head_bytes (length buf)) [
  | yes full ↦ rw (le→leb limits.max_head_bytes (length buf) full) tt
  | no more ↦ rw (lt→leb limits.max_head_bytes (length buf) (omega arith)) (omega arith)
]

-- A head that is accepted ends within the buffer and within the limit on heads, announces no
-- longer body than the limit on bodies, and is not informational; and the parser asks for more bytes
-- only while the buffer is below the limit on heads.
pub parse_head-Accepted :
    (limits : Limits) (buf : Bytes) → Accepted limits (length buf) (parse_head buf limits)
unfolding parse_head
parse_head-Accepted limits buf =
    let n = min (length buf) limits.max_head_bytes in
    let ends = scan_lines-EndsBy buf limits.max_header_count n 0 0 [] n (omega arith) in
    elim (Result-cases (scan_lines buf limits.max_header_count n 0 0 [])) [
      | inr (e, failed) ↦ rw (failed, parse_head) tt
      | inl (s, found) ↦
          rw (found, parse_head) (parse_scanned-Accepted limits buf s (subst (EndsBy n) found ends))
    ]
