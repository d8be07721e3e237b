-- ===== src/Http/Response.antt =====
-- crates/http-ingest/src/response.rs: the head of a response, from a buffer that grows, and the line
-- of a chunk's size.
pub mod Grow
pub mod Limit
pub mod Framing
pub mod SizeLine
use radar_workstation.Common.{
  ℕ, zero, suc, ◌+◌, ◌-◌, ◌*◌, ◌^◌, String, Bool, true, false, not, ◌&&◌, ◌||◌, Option, none, some,
  List, [], ◌∷◌, ◌++◌, Bytes, length, slice, leb, ltb, drop, take, ◌==◌, if◌then◌else◌, any, all,
  get_or, min, Result, ok, err, and_then, ok_or,
}
use radar_workstation.Common.Text.{codes, bytes_eq}
use radar_workstation.Http.{Limits, HttpError, protocol, body_too_large}
use radar_workstation.Http.Ascii.{
  within, is_digit, is_hexdigit, is_tchar, is_vchar_sp_htab, eq_ignore_ascii_case, position,
  trim_ows, split, number_onto, digit_value, hexdigit_value,
}

pub data BodyFraming : Type 0 where
  no_body : BodyFraming
  content_length : ℕ → BodyFraming
  chunked : BodyFraming

pub record Head : Type 0 where
  pub status : ℕ
  pub framing : BodyFraming
  pub connection_close : Bool
  pub head_len : ℕ

abbrev pub max_chunk_header_line : ℕ
max_chunk_header_line = 256

-- The line that ends at the LF at `i`.
unfoldable pub line_at : Bytes → ℕ → ℕ → Result HttpError Bytes
line_at buf line_start i =
    if i == line_start || not (get_or buf (i - 1) 0 == 13)
    then err (protocol "bare LF")
    else if any (λ b. b == 13) (slice buf line_start (i - 1 - line_start))
    then err (protocol "bare CR in header line")
    else ok (slice buf line_start (i - 1 - line_start))

-- What the loop of `parse_head` found: the lines and the length of the head, if it is complete.
abbrev pub Scanned : Type 0
Scanned = Result HttpError (Option (List Bytes × ℕ))

-- The round at an LF once its line is cut; `rest` is the loop behind it.
unfoldable pub push_line : ℕ → ℕ → List Bytes → Bytes → (List Bytes → Scanned) → Scanned
push_line max_header_count i lines [] rest = ok (some (lines, i + 1))
push_line max_header_count i lines (b ∷ line) rest =
    if ltb max_header_count (length (lines ++ (b ∷ line) ∷ []) - 1)
    then err (protocol "too many headers")
    else rest (lines ++ (b ∷ line) ∷ [])

-- The loop over the bytes from `i` on, `n` of them.
unfoldable pub scan_lines : Bytes → ℕ → ℕ → ℕ → ℕ → List Bytes → Scanned
scan_lines buf max_header_count zero i line_start lines = ok none
scan_lines buf max_header_count (suc n) i line_start lines = elim (get_or buf i 0 == 10) [
  | false ↦ scan_lines buf max_header_count n (i + 1) line_start lines
  | true ↦ and_then (line_at buf line_start i) (λ line.
      push_line max_header_count i lines line (scan_lines buf max_header_count n (i + 1) (i + 1)))
]

unfoldable pub parse_status_line : Bytes → Result HttpError ℕ
parse_status_line line =
    if ltb (length line) 12
    then err (protocol "status line too short")
    else if not (
          bytes_eq (slice line 0 8) (codes "HTTP/1.1")
          || bytes_eq (slice line 0 8) (codes "HTTP/1.0"))
        || not (get_or line 8 0 == 32)
    then err (protocol "unsupported protocol token")
    else if not (all is_digit (slice line 9 3))
    then err (protocol "non-digit status code")
    else if ltb 12 (length line) && not (get_or line 12 0 == 32)
    then err (protocol "malformed reason phrase separator")
    else if ltb 12 (length line) && not (all is_vchar_sp_htab (drop 13 line))
    then err (protocol "invalid byte in reason phrase")
    else ok (number_onto 10 digit_value 0 (slice line 9 3))

-- The name and the value around the colon.
unfoldable pub split_header : Bytes → ℕ → Result HttpError (Bytes × Bytes)
split_header line colon =
    let name = take colon line in
    let value = trim_ows (drop (colon + 1) line) in
    if length name == 0 || not (all is_tchar name)
    then err (protocol "invalid header name")
    else if not (all is_vchar_sp_htab value)
    then err (protocol "invalid byte in header value")
    else ok (name, value)

unfoldable pub parse_header_line : Bytes → Result HttpError (Bytes × Bytes)
parse_header_line line =
    if ltb 0 (length line) && (get_or line 0 0 == 32 || get_or line 0 0 == 9)
    then err (protocol "obs-fold")
    else and_then (ok_or (protocol "missing header colon") (position (λ b. b == 58) line))
        (split_header line)

unfoldable pub parse_content_length : Bytes → Result HttpError ℕ
parse_content_length value =
    if length value == 0 || ltb 20 (length value) || not (all is_digit value)
    then err (protocol "malformed Content-Length")
    else if ltb (number_onto 10 digit_value 0 value) (2 ^ 64)
    then ok (number_onto 10 digit_value 0 value)
    else err (protocol "Content-Length overflow")

-- The variables of the loop over the headers.
pub record HeaderState : Type 0 where
  pub length_seen : Option ℕ
  pub transfer_encoding_seen : Bool
  pub is_chunked : Bool
  pub connection_close : Bool

abbrev pub no_headers : HeaderState
no_headers = record {
  length_seen = none;
  transfer_encoding_seen = false;
  is_chunked = false;
  connection_close = false;
}

unfoldable pub apply_header : Bytes × Bytes → HeaderState → Result HttpError HeaderState
apply_header (name, value) s =
    if eq_ignore_ascii_case name (codes "content-length")
    then elim s.length_seen [
      | some n ↦ err (protocol "duplicate Content-Length")
      | none ↦ and_then (parse_content_length value) (λ n. ok (record s { length_seen = some n }))
    ]
    else if eq_ignore_ascii_case name (codes "transfer-encoding")
    then (if s.transfer_encoding_seen
        then err (protocol "duplicate Transfer-Encoding")
        else if not (eq_ignore_ascii_case (trim_ows value) (codes "chunked"))
        then err (protocol "unsupported Transfer-Encoding")
        else ok (record s { transfer_encoding_seen = true; is_chunked = true }))
    else if eq_ignore_ascii_case name (codes "connection")
    then (if any (λ token. eq_ignore_ascii_case (trim_ows token) (codes "close")) (split 44 value)
        then ok (record s { connection_close = true })
        else ok s)
    else if eq_ignore_ascii_case name (codes "content-encoding")
        && not (eq_ignore_ascii_case (trim_ows value) (codes "identity"))
    then err (protocol "unsupported Content-Encoding")
    else ok s

unfoldable pub apply_headers : List Bytes → HeaderState → Result HttpError HeaderState
apply_headers [] s = ok s
apply_headers (line ∷ lines) s =
    and_then (parse_header_line line) (λ h. and_then (apply_header h s) (apply_headers lines))

unfoldable pub framing_of : Limits → ℕ → HeaderState → Result HttpError BodyFraming
framing_of limits status s =
    if status == 204 || status == 304
    then ok no_body
    else if s.is_chunked
    then ok chunked
    else elim s.length_seen [
      | none ↦ err (protocol "missing Content-Length")
      | some len ↦
          if ltb limits.max_body_bytes len
          then err (body_too_large len limits.max_body_bytes)
          else ok (content_length len)
    ]

-- `content_length.is_some() && chunked`
unfoldable pub framed_twice : HeaderState → Bool
framed_twice s = elim s.length_seen [ some n ↦ s.is_chunked | none ↦ false ]

-- The tests behind the loop over the headers.
unfoldable pub finish_head : Limits → ℕ → ℕ → HeaderState → Result HttpError (Option Head)
finish_head limits head_len status s =
    if framed_twice s
    then err (protocol "Content-Length and Transfer-Encoding together")
    else if within 100 199 status
    then err (protocol "1xx status")
    else and_then (framing_of limits status s) (λ framing. ok (
        some (record {
          status = status;
          framing = framing;
          connection_close = s.connection_close;
          head_len = head_len;
        })))

-- The lines of a complete head.
unfoldable pub parse_lines : Limits → List Bytes → ℕ → Result HttpError (Option Head)
parse_lines limits [] head_len = err (protocol "missing status line")
parse_lines limits (status_line ∷ lines) head_len =
    and_then (parse_status_line status_line)
      (λ status. and_then (apply_headers lines no_headers) (finish_head limits head_len status))

-- Behind the loop over the bytes.
unfoldable pub parse_scanned :
    Limits → Bytes → Option (List Bytes × ℕ) → Result HttpError (Option Head)
parse_scanned limits buf (some (lines, head_len)) = parse_lines limits lines head_len
parse_scanned limits buf none =
    if leb limits.max_head_bytes (length buf) then err (protocol "head too large") else ok none

-- `Ok(None)` asks for more bytes.
unfoldable pub parse_head : Bytes → Limits → Result HttpError (Option Head)
parse_head buf limits =
    and_then
      (scan_lines buf limits.max_header_count (min (length buf) limits.max_head_bytes) 0 0 [])
      (parse_scanned limits buf)

-- The size line of a chunk, and how many bytes it takes.
unfoldable pub size_line : Bytes → ℕ → Result HttpError (Option (ℕ × ℕ))
size_line buf nl =
    let line = take (nl - 1) buf in
    if nl == 0 || not (get_or buf (nl - 1) 0 == 13)
    then err (protocol "bare LF in chunk size line")
    else if any (λ b. b == 13) line
    then err (protocol "bare CR in chunk size line")
    else if any (λ b. b == 59) line
    then err (protocol "chunk extensions not supported")
    else if length line == 0 || ltb 16 (length line) || not (all is_hexdigit line)
    then err (protocol "invalid chunk size")
    else if ltb (number_onto 16 hexdigit_value 0 line) (2 ^ 64)
    then ok (some (number_onto 16 hexdigit_value 0 line, nl + 1))
    else err (protocol "chunk size overflow")

unfoldable pub parse_chunk_size_line : Bytes → Result HttpError (Option (ℕ × ℕ))
parse_chunk_size_line buf =
    elim (position (λ b. b == 10) (take (min (length buf) max_chunk_header_line) buf)) [
      | some nl ↦ size_line buf nl
      | none ↦
          if leb max_chunk_header_line (length buf)
          then err (protocol "chunk size line too large")
          else ok none
    ]
