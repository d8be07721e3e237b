-- ===== src/Ingest/Listing/Folders.antt =====
-- The number in a folder's name.
use radar_workstation.Common.{
  ℕ, zero, suc, ◌+◌, ◌-◌, ◌*◌, ◌/◌, ◌%◌, ◌<◌, ◌≤◌, ◌≡◌, refl, ap, ◌∙◌, some, Bytes, [], ◌∷◌, ◌++◌,
  false, ltb, arith, le→leb, lt→ltb, inl, inr, Bool-cases, append_assoc, ltb→lt,
}
use radar_workstation.Common.Maybe.{◌>>=◌}
use radar_workstation.Common.Text.{codes}
use radar_workstation.Ingest.Listing.{
  strip_prefix, strip_slash, digits_onto, parse_u64, parse_volume_folder,
}
use radar_workstation.Ingest.Poller.{digits_before, decimal, site_prefix, volume_prefix}

strip_prefix-append : (p s : Bytes) → strip_prefix p (p ++ s) ≡ some s
unfolding strip_prefix
strip_prefix-append [] s = refl
strip_prefix-append (b ∷ p) s = ground (arith, strip_prefix-append p s)

strip_slash-append : (s : Bytes) → strip_slash (s ++ codes "/") ≡ some s
unfolding strip_slash
strip_slash-append [] = refl
strip_slash-append (b ∷ []) = refl
strip_slash-append (b ∷ c ∷ s) =
    ap (λ o. o >>= λ rest. some (b ∷ rest)) (strip_slash-append (c ∷ s))

digits_onto-digit :
    (n d : ℕ) (ds : Bytes)
    → d < 10
    → n * 10 + d < 18446744073709551616
    → digits_onto n ((48 + d) ∷ ds) ≡ digits_onto (n * 10 + d) ds
unfolding digits_onto
digits_onto-digit n d ds small fits =
    let value : n * 10 + (48 + d - 48) ≡ n * 10 + d = omega arith in
    rw (
      le→leb 48 (48 + d) (omega arith),
      le→leb (48 + d) 57 (omega arith),
      value,
      lt→ltb (n * 10 + d) 18446744073709551616 fits,
    )

not_below : (a b : ℕ) → ltb a b ≡ false → b ≤ a
not_below a b h = ground arith

abbrev ten_power : ℕ → ℕ
ten_power zero = 1
ten_power (suc n) = ten_power n * 10

digits_onto-single :
    (n : ℕ) (ds : Bytes) → n < 10 → digits_onto 0 ((48 + n % 10) ∷ ds) ≡ digits_onto n ds
digits_onto-single n ds small =
    let value : 0 * 10 + n % 10 ≡ n = omega arith in
    digits_onto-digit 0 (n % 10) ds (omega arith) (omega arith) ∙ ap (λ k. digits_onto k ds) value

digits_onto-decimal :
    (fuel n : ℕ) (ds : Bytes)
    → n < ten_power (suc fuel)
    → n < 18446744073709551616
    → digits_onto 0 (digits_before (suc fuel) n ds) ≡ digits_onto n ds
unfolding digits_before
digits_onto-decimal zero n ds enough fits =
    rw (lt→ltb n 10 (omega arith)) (digits_onto-single n ds (omega arith))
digits_onto-decimal (suc fuel) n ds enough fits = elim (Bool-cases (ltb n 10)) [
  | inl single ↦ rw single (digits_onto-single n ds (ltb→lt n 10 single))
  | inr more ↦
      let big = not_below n 10 more in
      let value : n / 10 * 10 + n % 10 ≡ n = omega arith in
      rw more (
        digits_onto-decimal fuel (n / 10) ((48 + n % 10) ∷ ds) (omega arith) (omega arith)
        ∙ digits_onto-digit (n / 10) (n % 10) ds (omega arith) (omega arith)
        ∙ ap (λ k. digits_onto k ds) value)
]

-- A text that begins with a digit.
abbrev StartsDigit : Bytes → Type 0
StartsDigit [] = Unit {0} → 1 ≤ 0
StartsDigit (b ∷ bs) = 48 ≤ b

first-StartsDigit :
    (fuel n : ℕ) (ds : Bytes)
    → StartsDigit (digits_before fuel (n / 10) ((48 + n % 10) ∷ ds))
    → StartsDigit (digits_before (suc fuel) n ds)
unfolding digits_before
first-StartsDigit fuel n ds later = elim (Bool-cases (ltb n 10)) [
  | inl single ↦ rw single (omega arith)
  | inr more ↦ rw more later
]

digits_before-StartsDigit :
    (fuel n : ℕ) (ds : Bytes) → StartsDigit ds → StartsDigit (digits_before fuel n ds)
unfolding digits_before
digits_before-StartsDigit zero n ds h = h
digits_before-StartsDigit (suc fuel) n ds h =
    first-StartsDigit fuel n ds
      (digits_before-StartsDigit fuel (n / 10) ((48 + n % 10) ∷ ds) (omega arith))

parse_u64-digits : (s : Bytes) → StartsDigit s → parse_u64 s ≡ digits_onto 0 s
unfolding parse_u64
parse_u64-digits [] h = absurd (omega (arith, h tt))
parse_u64-digits (b ∷ bs) h = ground arith

-- The folder that a poll asks for is read back as its number: the listing of the folders and the
-- prefix of the keys agree, for each volume number below 2 ^ 64.
pub parse_volume_folder-volume_prefix :
    (site : Bytes) (v : ℕ)
    → v < 18446744073709551616
    → parse_volume_folder (site_prefix site) (volume_prefix site v) ≡ some v
unfolding parse_volume_folder digits_onto
parse_volume_folder-volume_prefix site v fits =
    let rest = decimal v ++ codes "/" in
    let digits =
      first-StartsDigit 19 v []
        (digits_before-StartsDigit 19 (v / 10) ((48 + v % 10) ∷ []) (omega arith)) in
    let stripped : strip_prefix (site_prefix site) (volume_prefix site v) ≡ some rest =
      ap (strip_prefix (site_prefix site)) (append_assoc (site_prefix site) (decimal v) (codes "/"))
      ∙ strip_prefix-append (site_prefix site) rest in
    let number : parse_u64 (decimal v) ≡ some v =
      parse_u64-digits (decimal v) digits ∙ digits_onto-decimal 19 v [] (omega arith) fits in
    rw (stripped, strip_slash-append (decimal v), number)
