-- ===== src/Http/Response/Grow.antt =====
-- The head parser over a buffer that grows: once it has decided, more bytes change nothing.
use radar_workstation.Common.{
  ℕ, zero, suc, ◌+◌, ◌-◌, ◌≤◌, ◌<◌, ◌≡◌, refl, ap, ◌∙◌, ◌⊎◌, inl, inr, Option, none, some, List, [],
  ◌∷◌, ◌++◌, Bytes, length, length-append, slice, leb, ltb, drop, take, ◌==◌, get_or,
  get_or-append_left, take-append_left, drop-append_left, length-drop, min, ok, arith, Bool-cases,
  Result-cases, leb→le, le→leb, lt→leb,
}
use radar_workstation.Http.{Limits}
use radar_workstation.Http.Response.{
  Scanned, line_at, push_line, scan_lines, parse_scanned, parse_head,
}

slice-append_left :
    (xs ys : Bytes) (from n : ℕ) → from + n ≤ length xs → slice (xs ++ ys) from n ≡ slice xs from n
slice-append_left xs ys from n h =
    ap (take n) (drop-append_left from xs ys (omega arith))
    ∙ take-append_left n (drop from xs) ys (omega (arith, length-drop from xs))

module _ (buf more : Bytes) where
  line_at-append :
      (line_start i : ℕ)
      → line_start ≤ i
      → i < length buf
      → line_at (buf ++ more) line_start i ≡ line_at buf line_start i
  unfolding line_at
  line_at-append line_start i h k = elim (Bool-cases (i == line_start)) [
    | inl empty ↦ rw empty refl
    | inr cut ↦
        rw (get_or-append_left buf more (i - 1) 0 (omega arith))
          (rw (slice-append_left buf more line_start (i - 1 - line_start) (ground arith)) refl)
  ]

  -- Either the loop runs out of the first buffer's bytes, or it ends alike on both.
  abbrev Grows : Scanned → Scanned → ℕ → ℕ → Type 0
  Grows first second n n' = ((first ≡ ok none) × (n < n')) ⊎ (second ≡ first)

  push_line-Grows :
      (m i n n' : ℕ) (lines : List Bytes) (line : Bytes) (first second : List Bytes → Scanned)
      → ((ls : List Bytes) → Grows (first ls) (second ls) n n')
      → Grows (push_line m i lines line first) (push_line m i lines line second) (suc n) (suc n')
  unfolding push_line
  push_line-Grows m i n n' lines [] first second h = inr refl
  push_line-Grows m i n n' lines (b ∷ line) first second h =
      elim (Bool-cases (ltb m (length (lines ++ (b ∷ line) ∷ []) - 1))) [
        | inl many ↦ rw many (inr refl)
        | inr few ↦ rw few (elim (h (lines ++ (b ∷ line) ∷ [])) [
          | inl (out, less) ↦ inl (out, omega arith)
          | inr same ↦ inr same
        ])
      ]

  scan_lines-Grows :
      (m n n' i line_start : ℕ) (lines : List Bytes)
      → n ≤ n'
      → i + n ≤ length buf
      → line_start ≤ i
      → Grows
          (scan_lines buf m n i line_start lines)
          (scan_lines (buf ++ more) m n' i line_start lines)
          n
          n'
  unfolding scan_lines
  scan_lines-Grows m zero zero i line_start lines le room h = inr refl
  scan_lines-Grows m zero (suc n') i line_start lines le room h = inl (refl, omega arith)
  scan_lines-Grows m (suc n) zero i line_start lines le room h = absurd (omega arith)
  scan_lines-Grows m (suc n) (suc n') i line_start lines le room h =
      elim (Bool-cases (get_or buf i 0 == 10)) [
        | inr other ↦
            rw (get_or-append_left buf more i 0 (omega arith), scan_lines)
              (rw (other, scan_lines)
                (elim (scan_lines-Grows m n n' (i + 1) line_start lines (omega arith) (omega arith)
                  (omega arith)) [
                    | inl (out, less) ↦ inl (out, omega arith)
                    | inr same ↦ inr same
                  ]))
        | inl newline ↦
            rw (get_or-append_left buf more i 0 (omega arith), scan_lines)
              (rw (newline, scan_lines)
                (rw (line_at-append line_start i h (omega arith))
                  (elim (Result-cases (line_at buf line_start i)) [
                    | inr (e, failed) ↦ rw failed (inr refl)
                    | inl (line, cut) ↦ rw cut (
                        push_line-Grows m i n n' lines line (scan_lines buf m n (i + 1) (i + 1))
                          (scan_lines (buf ++ more) m n' (i + 1) (i + 1))
                          (λ ls.
                            scan_lines-Grows m n n' (i + 1) (i + 1) ls (omega arith) (omega arith)
                              (omega arith)))
                  ])))
      ]

-- What was found in the bytes of a buffer, with more bytes behind it.
parse_scanned-grows :
    (limits : Limits) (buf more : Bytes) (s : Option (List Bytes × ℕ))
    → (parse_scanned limits buf s ≡ ok none)
      ⊎ (parse_scanned limits (buf ++ more) s ≡ parse_scanned limits buf s)
unfolding parse_scanned
parse_scanned-grows limits buf more (some (lines, head_len)) = inr refl
parse_scanned-grows limits buf more none =
    elim (Bool-cases (leb limits.max_head_bytes (length buf))) [
      | inl full ↦ inr (
          rw full (
            rw
              (le→leb limits.max_head_bytes (length (buf ++ more)) (
                omega
                  (arith, length-append buf more, leb→le limits.max_head_bytes (length buf) full)))
              refl))
      | inr open_head ↦ inl (rw open_head refl)
    ]

-- Once the head parser has decided, for a head or for an error, it decides the same on every longer
-- buffer; in the other case it asks for more bytes.
pub parse_head-grows :
    (limits : Limits) (buf more : Bytes)
    → (parse_head buf limits ≡ ok none) ⊎ (parse_head (buf ++ more) limits ≡ parse_head buf limits)
unfolding parse_head parse_scanned
parse_head-grows limits buf more =
    let m = limits.max_header_count in
    let n = min (length buf) limits.max_head_bytes in
    let n' = min (length (buf ++ more)) limits.max_head_bytes in
    elim (scan_lines-Grows buf more m n n' 0 0 [] (omega (arith, length-append buf more))
      (omega arith) (omega arith)) [
        | inl (out, less) ↦ inl (
            rw (out, parse_head)
              (rw (lt→leb limits.max_head_bytes (length buf) (omega (arith, less))) refl))
        | inr same ↦ elim (Result-cases (scan_lines buf m n 0 0 [])) [
          | inr (e, failed) ↦ inr (rw (same, parse_head) (rw failed refl))
          | inl (s, found) ↦ elim (parse_scanned-grows limits buf more s) [
            | inl open_head ↦ inl (rw (found, parse_head) open_head)
            | inr alike ↦ inr (rw (same, parse_head) (rw found alike))
          ]
        ]
      ]
