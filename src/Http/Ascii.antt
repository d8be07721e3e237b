-- ===== src/Http/Ascii.antt =====
-- What crates/http-ingest/src/response.rs uses of byte classes, digits and slices.
use radar_workstation.Common.{
  ℕ, ◌+◌, ◌-◌, ◌*◌, Bool, not, ◌&&◌, ◌||◌, Option, none, some, List, [], ◌∷◌, Bytes, length, slice,
  leb, ◌==◌, if◌then◌else◌, any, map,
}
use radar_workstation.Common.Text.{codes, bytes_eq}

-- `(lo..=hi).contains(&b)`
abbrev pub within : ℕ → ℕ → ℕ → Bool
within lo hi b = leb lo b && leb b hi

abbrev pub is_digit : ℕ → Bool
is_digit b = within 48 57 b

abbrev pub is_alpha : ℕ → Bool
is_alpha b = within 65 90 b || within 97 122 b

abbrev pub is_hexdigit : ℕ → Bool
is_hexdigit b = is_digit b || within 65 70 b || within 97 102 b

unfoldable pub is_tchar : ℕ → Bool
is_tchar b = is_digit b || is_alpha b || any (λ c. b == c) (codes "!#$%&'*+-.^_`|~")

unfoldable pub is_vchar_sp_htab : ℕ → Bool
is_vchar_sp_htab b = within 33 126 b || b == 32 || b == 9

abbrev pub is_ows : ℕ → Bool
is_ows b = b == 32 || b == 9

abbrev pub to_lower : ℕ → ℕ
to_lower b = if within 65 90 b then b + 32 else b

unfoldable pub eq_ignore_ascii_case : Bytes → Bytes → Bool
eq_ignore_ascii_case xs ys = bytes_eq (map to_lower xs) (map to_lower ys)

-- `iter().position(p)` and `iter().rposition(p)`
unfoldable pub position : (ℕ → Bool) → Bytes → Option ℕ
position p [] = none
position p (b ∷ bs) =
    if p b then some 0 else elim (position p bs) [ none ↦ none | some i ↦ some (i + 1) ]

unfoldable pub rposition : (ℕ → Bool) → Bytes → Option ℕ
rposition p [] = none
rposition p (b ∷ bs) = elim (rposition p bs) [
  | some i ↦ some (i + 1)
  | none ↦ if p b then some 0 else none
]

unfoldable pub trim_ows : Bytes → Bytes
trim_ows value =
    let first : ℕ = elim (position (λ b. not (is_ows b)) value) [
      | none ↦ length value
      | some i ↦ i
    ] in
    let past : ℕ = elim (rposition (λ b. not (is_ows b)) value) [ none ↦ first | some i ↦ i + 1 ] in
    slice value first (past - first)

-- `split(|&b| b == separator)`
unfoldable pub split : ℕ → Bytes → List Bytes
split separator [] = [] ∷ []
split separator (b ∷ bs) = elim (split separator bs) [
  | [] ↦ []
  | piece ∷ pieces ↦ if b == separator then [] ∷ piece ∷ pieces else (b ∷ piece) ∷ pieces
]

-- The digits of a number, the most significant first.
unfoldable pub number_onto : ℕ → (ℕ → ℕ) → ℕ → Bytes → ℕ
number_onto base digit acc [] = acc
number_onto base digit acc (b ∷ bs) = number_onto base digit (acc * base + digit b) bs

abbrev pub digit_value : ℕ → ℕ
digit_value b = b - 48

abbrev pub hexdigit_value : ℕ → ℕ
hexdigit_value b = if is_digit b then b - 48 else if within 65 70 b then b - 55 else b - 87
