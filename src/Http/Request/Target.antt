-- ===== src/Http/Request/Target.antt =====
-- Which bytes the target of a request has.
use radar_workstation.Common.{
  ℕ, ◌/◌, ◌%◌, ◌<◌, ◌≡◌, refl, Bool, true, false, ◌&&◌, ◌||◌, Option, none, some, [], ◌∷◌, ◌++◌,
  Bytes, IsBytes, all, ◌==◌, Result, ok, err, and_then, arith, Bool-cases, inl, inr, Result-cases,
  subst,
}
use radar_workstation.Common.Text.{codes}
use radar_workstation.Http.{HttpError}
use radar_workstation.Http.Ascii.{within}
use radar_workstation.Http.Request.{
  is_unreserved, reject_crlf, hex_digit, encode_bytes, percent_encode, encode_query_value,
  encode_path, push_parameter, list_query, object_path,
}

-- A visible character: no space, no line break, no control byte.
abbrev pub is_visible : ℕ → Bool
is_visible b = within 33 126 b

-- A result, if it is one, has visible characters only.
abbrev pub Visible : Result HttpError Bytes → Type 0
Visible (err e) = Unit {0}
Visible (ok out) = all is_visible out ≡ true

all-append : (xs ys : Bytes) → all is_visible (xs ++ ys) ≡ (all is_visible xs && all is_visible ys)
all-append [] ys = refl
all-append (b ∷ xs) ys = ground (arith, all-append xs ys)

passed-visible :
    (extra : ℕ → Bool) (b : ℕ)
    → ((n : ℕ) → extra n ≡ true → is_visible n ≡ true)
    → (is_unreserved b || extra b) ≡ true
    → is_visible b ≡ true
unfolding is_unreserved
passed-visible extra b e h = ground (arith, e b)

hex_digit-visible : (n : ℕ) → n < 16 → is_visible (hex_digit n) ≡ true
hex_digit-visible n h = ground arith

encode_bytes-visible :
    (extra : ℕ → Bool) (input : Bytes)
    → ((n : ℕ) → extra n ≡ true → is_visible n ≡ true)
    → IsBytes input
    → all is_visible (encode_bytes extra input) ≡ true
unfolding encode_bytes
encode_bytes-visible extra [] e v = refl
encode_bytes-visible extra (b ∷ bs) e v = elim (Bool-cases (is_unreserved b || extra b)) [
  | inl passed ↦
      rw (passed, encode_bytes)
        (rw (passed-visible extra b e passed) (encode_bytes-visible extra bs e v.1))
  | inr escaped ↦
      rw (escaped, encode_bytes)
        (rw (hex_digit-visible (b / 16) (omega (arith, v.0)))
          (rw (hex_digit-visible (b % 16) (omega arith)) (encode_bytes-visible extra bs e v.1)))
]

percent_encode-Visible :
    (extra : ℕ → Bool) (input : Bytes)
    → ((n : ℕ) → extra n ≡ true → is_visible n ≡ true)
    → IsBytes input
    → Visible (percent_encode input extra)
unfolding percent_encode
percent_encode-Visible extra input e v = elim (Result-cases (reject_crlf input)) [
  | inr (x, refused) ↦ rw refused tt
  | inl (u, passed) ↦ rw passed (encode_bytes-visible extra input e v)
]

encode_query_value-Visible : (input : Bytes) → IsBytes input → Visible (encode_query_value input)
unfolding encode_query_value
encode_query_value-Visible input v = percent_encode-Visible (λ _. false) input (λ n h. cc) v

abbrev pub AllBytes : Option Bytes → Type 0
AllBytes none = Unit {0}
AllBytes (some b) = IsBytes b

push_parameter-Visible :
    (label : Bytes) (value : Option Bytes) (out : Bytes)
    → all is_visible label ≡ true
    → AllBytes value
    → Visible (ok out)
    → Visible (push_parameter label value out)
unfolding push_parameter
push_parameter-Visible label none out l v h = h
push_parameter-Visible label (some value) out l v h =
    elim (Result-cases (encode_query_value value)) [
      | inr (x, refused) ↦ rw refused tt
      | inl (w, encoded) ↦
          let fine : Visible (ok w) = subst Visible encoded (encode_query_value-Visible value v) in
          rw encoded
            (rw (all-append (out ++ label) w) (rw (all-append out label) (rw h (rw l fine))))
    ]

then-Visible :
    (r : Result HttpError Bytes) (f : Bytes → Result HttpError Bytes)
    → Visible r
    → ((out : Bytes) → Visible (ok out) → Visible (f out))
    → Visible (and_then r f)
then-Visible (ok out) f h k = k out h
then-Visible (err e) f h k = tt

-- The targets of a listing and of an object have visible characters only, whatever is asked for: no
-- space and no line break can end the request line early.
pub targets-Visible :
    (prefix key : Bytes) (start_after continuation_token delimiter : Option Bytes)
    → IsBytes prefix
    → IsBytes key
    → AllBytes start_after
    → AllBytes continuation_token
    → AllBytes delimiter
    → Visible (list_query prefix start_after continuation_token delimiter)
      × Visible (object_path key)
unfolding list_query object_path encode_path
targets-Visible prefix key start_after token delimiter p k s t d = (
  then-Visible (encode_query_value prefix) _ (encode_query_value-Visible prefix p) (λ q h.
      then-Visible
        (push_parameter (codes "&start-after=") start_after (codes "/?list-type=2&prefix=" ++ q)) _
        (push_parameter-Visible (codes "&start-after=") start_after
          (codes "/?list-type=2&prefix=" ++ q) refl s h)
        (λ out g.
          then-Visible (push_parameter (codes "&continuation-token=") token out) _
            (push_parameter-Visible (codes "&continuation-token=") token out refl t g)
            (λ last f. push_parameter-Visible (codes "&delimiter=") delimiter last refl d f))),
  then-Visible (percent_encode key (λ b. b == 47)) _
      (percent_encode-Visible (λ b. b == 47) key (λ n h. ground arith) k) (λ out h. h),
)
