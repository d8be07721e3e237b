-- ===== src/Http/Request.antt =====
-- crates/http-ingest/src/encode.rs, host.rs and request.rs: percent encoding, the two hosts, and the
-- requests. A `&str` stands for its bytes.
pub mod Decode
pub mod Target
use radar_workstation.Common.{
  ℕ, ◌+◌, ◌*◌, ◌/◌, ◌%◌, Bool, true, false, ◌||◌, Option, none, some, List, [], ◌∷◌, ◌++◌, Bytes,
  any, ltb, ◌==◌, if◌then◌else◌, Result, ok, err, and_then,
}
use radar_workstation.Common.Text.{codes, bytes_eq}
use radar_workstation.Http.{HttpError, invalid_input}
use radar_workstation.Http.Ascii.{is_digit, is_alpha}

unfoldable pub is_unreserved : ℕ → Bool
is_unreserved b = is_digit b || is_alpha b || b == 45 || b == 46 || b == 95 || b == 126

unfoldable pub reject_crlf : Bytes → Result HttpError (Unit {0})
reject_crlf input =
    if any (λ b. b == 13 || b == 10) input then err (invalid_input "CR or LF in input") else ok tt

abbrev pub hex_digit : ℕ → ℕ
hex_digit n = if ltb n 10 then n + 48 else n + 55

-- The loop over the bytes: as they are, or by `%{b:02X}`.
unfoldable pub encode_bytes : (ℕ → Bool) → Bytes → Bytes
encode_bytes extra_pass_through [] = []
encode_bytes extra_pass_through (b ∷ bs) =
    if is_unreserved b || extra_pass_through b
    then b ∷ encode_bytes extra_pass_through bs
    else 37 ∷ hex_digit (b / 16) ∷ hex_digit (b % 16) ∷ encode_bytes extra_pass_through bs

unfoldable pub percent_encode : Bytes → (ℕ → Bool) → Result HttpError Bytes
percent_encode input extra_pass_through =
    and_then (reject_crlf input) (λ _. ok (encode_bytes extra_pass_through input))

unfoldable pub encode_query_value : Bytes → Result HttpError Bytes
encode_query_value input = percent_encode input (λ _. false)

unfoldable pub encode_path : Bytes → Result HttpError Bytes
encode_path input = percent_encode input (λ b. b == 47)

pub data Bucket : Type 0 where
  chunks archive : Bucket

unfoldable pub host : Bucket → Bytes
host chunks = codes "unidata-nexrad-level2-chunks.s3.amazonaws.com"
host archive = codes "unidata-nexrad-level2.s3.amazonaws.com"

unfoldable pub from_host : Bytes → Option Bucket
from_host name =
    if bytes_eq (host chunks) name
    then some chunks
    else if bytes_eq (host archive) name
    then some archive
    else none

-- An optional parameter of the query, behind its label.
unfoldable pub push_parameter : Bytes → Option Bytes → Bytes → Result HttpError Bytes
push_parameter label none out = ok out
push_parameter label (some value) out =
    and_then (encode_query_value value) (λ v. ok (out ++ label ++ v))

unfoldable pub list_query :
    Bytes → Option Bytes → Option Bytes → Option Bytes → Result HttpError Bytes
list_query prefix start_after continuation_token delimiter =
    and_then (encode_query_value prefix) λ p.
      and_then
        (push_parameter (codes "&start-after=") start_after (codes "/?list-type=2&prefix=" ++ p))
        λ q.
          and_then (push_parameter (codes "&continuation-token=") continuation_token q)
            (push_parameter (codes "&delimiter=") delimiter)

unfoldable pub object_path : Bytes → Result HttpError Bytes
object_path key = and_then (encode_path key) (λ p. ok (47 ∷ p))
