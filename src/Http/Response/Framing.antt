-- ===== src/Http/Response/Framing.antt =====
-- Which headers a head may have: the framing of its body is never given twice.
use radar_workstation.Common.{
  ℕ, ◌+◌, ◌≤◌, ◌≡◌, refl, inl, inr, true, false, none, some, List, [], ◌∷◌, Bytes, if◌then◌else◌,
  Result, ok, err, arith, Bool-cases, Option-cases, Result-cases, ap, sym, ◌∙◌, length, map, subst,
}
use radar_workstation.Common.Text.{codes, eq_of_bytes_eq}
use radar_workstation.Http.{HttpError, Limits}
use radar_workstation.Http.Ascii.{eq_ignore_ascii_case, trim_ows, to_lower}
use radar_workstation.Http.Response.{
  HeaderState, no_headers, parse_header_line, parse_content_length, apply_header, apply_headers,
  Head, parse_lines, parse_status_line, framed_twice, finish_head,
}

-- How many of the lines are headers of this name.
abbrev named : Bytes → Result HttpError (Bytes × Bytes) → ℕ
named name (ok h) = if eq_ignore_ascii_case h.0 name then 1 else 0
named name (err e) = 0

abbrev pub count_named : Bytes → List Bytes → ℕ
count_named name [] = 0
count_named name (line ∷ lines) = named name (parse_header_line line) + count_named name lines

abbrev seen_length : HeaderState → ℕ
seen_length s = elim s.length_seen [ none ↦ 0 | some n ↦ 1 ]

abbrev seen_encoding : HeaderState → ℕ
seen_encoding s = if s.transfer_encoding_seen then 1 else 0

-- The counts of both framing headers after one more header, or after all.
abbrev Counts : ℕ → ℕ → HeaderState → Result HttpError HeaderState → Type 0
Counts lengths encodings s (err e) = Unit {0}
Counts lengths encodings s (ok t) =
    (seen_length t ≡ lengths + seen_length s)
    × (seen_encoding t ≡ encodings + seen_encoding s)
    × (t.is_chunked ≡ t.transfer_encoding_seen)

-- No name is both headers' name.
disjoint :
    (name : Bytes)
    → eq_ignore_ascii_case name (codes "content-length") ≡ true
    → eq_ignore_ascii_case name (codes "transfer-encoding") ≡ false
unfolding eq_ignore_ascii_case
disjoint name l = elim (Bool-cases (eq_ignore_ascii_case name (codes "transfer-encoding"))) [
  | inr other ↦ other
  | inl e ↦ absurd (
      omega (
        arith,
        ap length (
            sym (eq_of_bytes_eq (map to_lower name) (codes "content-length") l)
            ∙ eq_of_bytes_eq (map to_lower name) (codes "transfer-encoding") e),
      ))
]

apply_header-Counts :
    (h : Bytes × Bytes) (s : HeaderState)
    → s.is_chunked ≡ s.transfer_encoding_seen
    → Counts
        (named (codes "content-length") (ok h))
        (named (codes "transfer-encoding") (ok h))
        s
        (apply_header h s)
unfolding apply_header
apply_header-Counts h s c = elim (Bool-cases (eq_ignore_ascii_case h.0 (codes "content-length"))) [
  | inl is_length ↦ elim (Option-cases s.length_seen) [
    | inr (n, some_n) ↦ rw (is_length, apply_header) (rw some_n tt)
    | inl nothing ↦ elim (Result-cases (parse_content_length h.1)) [
      | inr (e, failed) ↦ rw (is_length, apply_header) (rw nothing (rw failed tt))
      | inl (n, read) ↦
          rw (is_length, apply_header)
            (rw nothing (rw read (rw (disjoint h.0 is_length) (omega arith, omega arith, c))))
    ]
  ]
  | inr other ↦ elim (Bool-cases (eq_ignore_ascii_case h.0 (codes "transfer-encoding"))) [
    | inl is_encoding ↦ elim (Bool-cases s.transfer_encoding_seen) [
      | inl again ↦ rw (other, apply_header) (rw is_encoding (rw again tt))
      | inr fresh ↦ elim (Bool-cases (eq_ignore_ascii_case (trim_ows h.1) (codes "chunked"))) [
        | inr unsupported ↦ rw (other, apply_header) (rw is_encoding (rw fresh (rw unsupported tt)))
        | inl supported ↦
            rw (other, apply_header)
              (rw is_encoding (rw fresh (rw supported (omega arith, omega arith, refl))))
      ]
    ]
    | inr neither ↦ rw (other, apply_header) (rw neither (ground (arith, c)))
  ]
]

Counts-cons :
    (l e l' e' : ℕ) (s t : HeaderState) (r : Result HttpError HeaderState)
    → Counts l e s (ok t)
    → Counts l' e' t r
    → Counts (l + l') (e + e') s r
Counts-cons l e l' e' s t (err x) h k = tt
Counts-cons l e l' e' s t (ok u) h k = (omega (arith, h.0, k.0), omega (arith, h.1, k.1), k.2)

apply_headers-Counts :
    (lines : List Bytes) (s : HeaderState)
    → s.is_chunked ≡ s.transfer_encoding_seen
    → Counts
        (count_named (codes "content-length") lines)
        (count_named (codes "transfer-encoding") lines)
        s
        (apply_headers lines s)
unfolding apply_headers
apply_headers-Counts [] s c = (omega arith, omega arith, c)
apply_headers-Counts (line ∷ lines) s c = elim (Result-cases (parse_header_line line)) [
  | inr (e, failed) ↦ rw (failed, apply_headers) tt
  | inl (h, read) ↦ elim (Result-cases (apply_header h s)) [
    | inr (e, failed) ↦ rw (read, apply_headers) (rw failed tt)
    | inl (t, applied) ↦
        let one : Counts (named (codes "content-length") (ok h))
            (named (codes "transfer-encoding") (ok h)) s (ok t) =
          subst (Counts _ _ s) applied (apply_header-Counts h s c) in
        rw (read, apply_headers)
          (rw applied (
            Counts-cons _ _ _ _ s t (apply_headers lines t) one
              (apply_headers-Counts lines t one.2)))
  ]
]

-- What a list of header lines may hold for the framing of the body.
abbrev pub FramedOnce : List Bytes → Type 0
FramedOnce [] = Unit {0}
FramedOnce (status_line ∷ lines) =
    count_named (codes "content-length") lines + count_named (codes "transfer-encoding") lines ≤ 1

seen_bound :
    (t : HeaderState)
    → t.is_chunked ≡ t.transfer_encoding_seen
    → framed_twice t ≡ false
    → seen_length t + seen_encoding t ≤ 1
unfolding framed_twice
seen_bound t c h = ground (arith, c)

-- Of the lines of a head that is accepted, at most one is a header that frames the body: never two
-- lengths, never two encodings, and never one of each, whatever the case of their letters.
pub parse_lines-FramedOnce :
    (limits : Limits) (lines : List Bytes) (head_len : ℕ) (head : Head)
    → parse_lines limits lines head_len ≡ ok (some head)
    → FramedOnce lines
unfolding parse_lines finish_head
parse_lines-FramedOnce limits [] head_len head h = tt
parse_lines-FramedOnce limits (status_line ∷ lines) head_len head h =
    elim (Result-cases (parse_status_line status_line)) [
      | inr (e, failed) ↦ cc (rw failed at h)
      | inl (status, read) ↦ elim (Result-cases (apply_headers lines no_headers)) [
        | inr (e, failed) ↦ cc (rw (read, failed) at h)
        | inl (t, applied) ↦
            let counts : Counts (count_named (codes "content-length") lines)
                (count_named (codes "transfer-encoding") lines) no_headers (ok t) =
              subst (Counts _ _ no_headers) applied (apply_headers-Counts lines no_headers refl) in
            elim (Bool-cases (framed_twice t)) [
              | inl both ↦ cc (rw (read, applied, both) at h)
              | inr once ↦ omega (arith, counts.0, counts.1, seen_bound t counts.2 once)
            ]
      ]
    ]
