-- ===== src/Tests/Responses.antt =====
-- The theorems on requests and responses, on a key and on a head with five bytes of body.
use radar_workstation.Common.{
  IsBytes, arith, ◌≡◌, ◌⊎◌, refl, none, some, ok, Bytes, List, [], ◌∷◌, ◌++◌, length, false,
}
use radar_workstation.Common.Text.{codes, bytes_eq}
use radar_workstation.Http.{Limits}
use radar_workstation.Http.Ascii.{
  is_tchar, is_vchar_sp_htab, eq_ignore_ascii_case, position, rposition, trim_ows, number_onto,
}
use radar_workstation.Http.Request.{
  encode_query_value, encode_path, percent_encode, reject_crlf, encode_bytes, is_unreserved,
  list_query, object_path,
}
use radar_workstation.Http.Request.Decode.{decode, decode-encode}
use radar_workstation.Http.Request.Target.{Visible, targets-Visible}
use radar_workstation.Http.Response.{
  Head, content_length, parse_head, parse_lines, parse_status_line, split_header, parse_header_line,
  parse_content_length, apply_header, apply_headers, framing_of, framed_twice, finish_head,
}
use radar_workstation.Http.Response.SizeLine.{Sized, parse_chunk_size_line-Sized}
use radar_workstation.Http.Response.{parse_chunk_size_line}
use radar_workstation.Http.Response.Framing.{FramedOnce, parse_lines-FramedOnce}
use radar_workstation.Http.Response.Grow.{parse_head-grows}
use radar_workstation.Http.Response.Limit.{Accepted, parse_head-Accepted}

abbrev crlf : Bytes
crlf = 13 ∷ 10 ∷ []

abbrev head_lines : List Bytes
head_lines = codes "HTTP/1.1 200 OK" ∷ codes "Content-Length: 5" ∷ []

abbrev pub head_bytes : Bytes
head_bytes = codes "HTTP/1.1 200 OK" ++ crlf ++ codes "Content-Length: 5" ++ crlf ++ crlf

abbrev pub small : Limits
small = record { max_head_bytes = 100; max_header_count = 4; max_body_bytes = 10 }

abbrev pub head : Head
head = record { status = 200; framing = content_length 5; connection_close = false; head_len = 38 }

head_lines-parsed : parse_lines small head_lines 38 ≡ ok (some head)
unfolding parse_lines parse_status_line bytes_eq is_vchar_sp_htab number_onto apply_headers
    parse_header_line position split_header trim_ows rposition is_tchar apply_header
    eq_ignore_ascii_case parse_content_length finish_head framed_twice framing_of
head_lines-parsed = refl

parse_lines-FramedOnce_example : FramedOnce head_lines
parse_lines-FramedOnce_example = parse_lines-FramedOnce small head_lines 38 head head_lines-parsed

parse_head-grows_example :
    (parse_head head_bytes small ≡ ok none)
    ⊎ (parse_head (head_bytes ++ codes "hello") small ≡ parse_head head_bytes small)
parse_head-grows_example = parse_head-grows small head_bytes (codes "hello")

parse_head-Accepted_example : Accepted small (length head_bytes) (parse_head head_bytes small)
parse_head-Accepted_example = parse_head-Accepted small head_bytes

abbrev sample_key : Bytes
sample_key = codes "KTLX/1+2"

sample_key-IsBytes : IsBytes sample_key
sample_key-IsBytes = omega arith

sample_key-query : encode_query_value sample_key ≡ ok (codes "KTLX%2F1%2B2")
unfolding encode_query_value percent_encode reject_crlf encode_bytes is_unreserved
sample_key-query = refl

sample_key-path : encode_path sample_key ≡ ok (codes "KTLX/1%2B2")
unfolding encode_path percent_encode reject_crlf encode_bytes is_unreserved
sample_key-path = refl

decode-encode_example :
    (decode (codes "KTLX%2F1%2B2") ≡ sample_key) × (decode (codes "KTLX/1%2B2") ≡ sample_key)
decode-encode_example =
    decode-encode sample_key (codes "KTLX%2F1%2B2") (codes "KTLX/1%2B2") sample_key-IsBytes
      sample_key-query sample_key-path

targets-Visible_example :
    Visible (list_query sample_key (some sample_key) none none) × Visible (object_path sample_key)
targets-Visible_example =
    targets-Visible sample_key sample_key (some sample_key) none none sample_key-IsBytes
      sample_key-IsBytes sample_key-IsBytes tt tt

abbrev size_bytes : Bytes
size_bytes = codes "1aF" ++ crlf ++ codes "rest"

parse_chunk_size_line-Sized_example : Sized (length size_bytes) (parse_chunk_size_line size_bytes)
parse_chunk_size_line-Sized_example = parse_chunk_size_line-Sized size_bytes
