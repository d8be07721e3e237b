-- ===== src/Http/Request/Decode.antt =====
-- Percent decoding, and that it undoes the encoding.
use radar_workstation.Common.{
  ℕ, ◌+◌, ◌*◌, ◌/◌, ◌%◌, ◌<◌, ◌≡◌, refl, ap, Bool, true, false, ◌||◌, [], ◌∷◌, Bytes, IsBytes, ◌==◌,
  if◌then◌else◌, ok, arith, Bool-cases, inl, inr, ==_iff, ap₂, sym, ◌∙◌, subst, Result-cases, ok_eq,
}
use radar_workstation.Http.Ascii.{hexdigit_value}
use radar_workstation.Http.Request.{
  is_unreserved, reject_crlf, hex_digit, encode_bytes, percent_encode, encode_query_value,
  encode_path,
}

-- What was read of an escape.
pub data Pending : Type 0 where
  nothing percent : Pending
  digit : ℕ → Pending

abbrev pub decode_from : Pending → Bytes → Bytes
decode_from s [] = []
decode_from nothing (b ∷ bs) =
    if b == 37 then decode_from percent bs else b ∷ decode_from nothing bs
decode_from percent (b ∷ bs) = decode_from (digit (hexdigit_value b)) bs
decode_from (digit h) (b ∷ bs) = (h * 16 + hexdigit_value b) ∷ decode_from nothing bs

abbrev pub decode : Bytes → Bytes
decode bs = decode_from nothing bs

hexdigit_value-hex_digit : (n : ℕ) → n < 16 → hexdigit_value (hex_digit n) ≡ n
hexdigit_value-hex_digit n h = ground arith

decode_from-literal :
    (extra : ℕ → Bool) (b : ℕ) (bs : Bytes)
    → extra 37 ≡ false
    → (is_unreserved b || extra b) ≡ true
    → decode (b ∷ bs) ≡ b ∷ decode bs
unfolding is_unreserved
decode_from-literal extra b bs e h = elim (Bool-cases (b == 37)) [
  | inr other ↦ rw other refl
  | inl escape ↦
      let same : b ≡ 37 = (==_iff b 37).0 escape in
      absurd (ground (arith, e, subst (λ n. (is_unreserved n || extra n) ≡ true) same h))
]

decode-encode_bytes :
    (extra : ℕ → Bool) (input : Bytes)
    → extra 37 ≡ false
    → IsBytes input
    → decode (encode_bytes extra input) ≡ input
unfolding encode_bytes
decode-encode_bytes extra [] e v = refl
decode-encode_bytes extra (b ∷ bs) e v = elim (Bool-cases (is_unreserved b || extra b)) [
  | inl passed ↦
      rw (passed, encode_bytes)
        (decode_from-literal extra b (encode_bytes extra bs) e passed
          ∙ ap (◌∷◌ b) (decode-encode_bytes extra bs e v.1))
  | inr escaped ↦
      rw (escaped, encode_bytes)
        (ap₂ ◌∷◌
          (omega (
            arith,
            hexdigit_value-hex_digit (b / 16) (omega (arith, v.0)),
            hexdigit_value-hex_digit (b % 16) (omega arith),
          ))
          (decode-encode_bytes extra bs e v.1))
]

percent_encode-decode :
    (extra : ℕ → Bool) (input out : Bytes)
    → extra 37 ≡ false
    → IsBytes input
    → percent_encode input extra ≡ ok out
    → decode out ≡ input
unfolding percent_encode
percent_encode-decode extra input out e v h = elim (Result-cases (reject_crlf input)) [
  | inr (x, refused) ↦ cc (rw refused at h)
  | inl (u, passed) ↦ ap decode (sym (ok_eq (rw passed at h))) ∙ decode-encode_bytes extra input e v
]

-- Whatever is encoded, as a query's value or as a path, is had back by percent decoding.
pub decode-encode :
    (input query path : Bytes)
    → IsBytes input
    → encode_query_value input ≡ ok query
    → encode_path input ≡ ok path
    → (decode query ≡ input) × (decode path ≡ input)
unfolding encode_query_value encode_path
decode-encode input query path v h k = (
  percent_encode-decode (λ _. false) input query refl v h,
  percent_encode-decode (λ b. b == 47) input path refl v k,
)
