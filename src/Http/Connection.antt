-- ===== src/Http/Connection.antt =====
-- crates/http-ingest/src/connection.rs: the reads of a response over a stream of bytes, and
-- round_trip. The TCP and TLS connection is what its writes and reads come to.
pub mod Exact
pub mod Tame
pub mod Unanswered
use radar_workstation.Common.{
  ℕ, zero, suc, ◌+◌, ◌%◌, min, Option, none, some, Result, ok, err, Bytes, List, [], ◌∷◌, ◌++◌,
  Bool, true, false, not, ◌&&◌, leb, ltb, if◌then◌else◌, length, take, drop,
}
use radar_workstation.Common.Stateful.{Stateful, pure, fail, out_of_fuel, ◌>>=◌, ◌>>◌}
use radar_workstation.Common.Text.{bytes_eq}
use radar_workstation.Http.{
  Limits, HttpError, protocol, http_status, timed_out_during, closed_by_peer, body_too_large, Phase,
  reading_headers, reading_body,
}
use radar_workstation.Http.Response.{
  Head, BodyFraming, no_body, content_length, chunked, parse_head, parse_chunk_size_line,
}

abbrev pub discard_cap : ℕ
discard_cap = 8192

-- What a read comes to within its time limit; no bytes are the end of the stream.
pub data ReadOutcome : Type 0 where
  received : Bytes → ReadOutcome
  read_failed : ReadOutcome
  timed_out_read : ReadOutcome

-- `Wire`: what the reads will come to, and the buffer; with the flag `any_bytes` of a round trip.
pub record Wire : Type 0 where
  pub incoming : List ReadOutcome
  pub rbuf : Bytes
  pub any_bytes : Bool

-- `panicked` is a slice or a split out of bounds, or a sum that overflows, which ends the task: the
-- overflow checks are on in every build.
pub data Internal : Type 0 where
  timed_out_in : Phase → Internal
  io : Bool → Internal
  fatal : HttpError → Internal
  panicked : Internal

pub data Attempt : Type 0 where
  success : Bytes → Attempt
  closed_empty : Attempt
  failed : HttpError → Attempt
  crashed : Attempt

abbrev pub Reading : Type 0 → Type 0
Reading A = Stateful Internal Wire A

-- A call of `read_more` with the test of its result, which all loops share.
unfoldable pub receive_from : Phase → List ReadOutcome → Reading (Unit {0})
receive_from phase [] w = some (w, err (io w.any_bytes))
receive_from phase (received [] ∷ rest) w =
    some (record w { incoming = rest }, err (io w.any_bytes))
receive_from phase (received (b ∷ bs) ∷ rest) w =
    some (record w { incoming = rest; rbuf = w.rbuf ++ (b ∷ bs); any_bytes = true }, ok tt)
receive_from phase (read_failed ∷ rest) w =
    some (record w { incoming = rest }, err (io w.any_bytes))
receive_from phase (timed_out_read ∷ rest) w =
    some (record w { incoming = rest }, err (timed_out_in phase))

abbrev pub receive : Phase → Reading (Unit {0})
receive phase w = receive_from phase w.incoming w

abbrev pub buffer : Reading Bytes
buffer w = some (w, ok w.rbuf)

-- `advance`
abbrev pub advance : ℕ → Reading (Unit {0})
advance n w = some (record w { rbuf = drop n w.rbuf }, ok tt)

-- `split_to`
unfoldable pub split_to : ℕ → Reading Bytes
split_to n w =
    if leb n (length w.rbuf)
    then some (record w { rbuf = drop n w.rbuf }, ok (take n w.rbuf))
    else some (w, err panicked)

-- The comparison of `rbuf[..2]` with a CRLF, and the advance behind it.
unfoldable pub expect_crlf : HttpError → Reading (Unit {0})
expect_crlf e w =
    if ltb (length w.rbuf) 2
    then some (w, err panicked)
    else if bytes_eq (take 2 w.rbuf) (13 ∷ 10 ∷ [])
    then some (record w { rbuf = drop 2 w.rbuf }, ok tt)
    else some (w, err (fatal e))

-- What a parse of the buffer gives: more bytes are wanted, or a result.
unfoldable pub parsed : {A : Type 0} → Result HttpError (Option A) → Reading (Option A)
parsed (ok a) = pure a
parsed (err e) = fail (fatal e)

-- The loops on fuel: every round but the last takes one read.
unfoldable pub read_head : ℕ → Limits → Reading Head
read_head zero limits = out_of_fuel
read_head (suc fuel) limits = do
  rbuf ← buffer
  found ← parsed (parse_head rbuf limits)
  elim found [ some head ↦ pure head | none ↦ receive reading_headers >> read_head fuel limits ]

unfoldable pub fill_to : ℕ → ℕ → Reading (Unit {0})
fill_to zero needed = out_of_fuel
fill_to (suc fuel) needed = do
  rbuf ← buffer
  elim (ltb (length rbuf) needed) [
    | true ↦ receive reading_body >> fill_to fuel needed
    | false ↦ pure tt
  ]

unfoldable pub read_exact_body : ℕ → ℕ → Reading Bytes
read_exact_body fuel len = do fill_to fuel len; split_to len

-- The inner loop of `read_chunked_body`: the size of a chunk, and the length of its line.
unfoldable pub read_chunk_size : ℕ → Reading (ℕ × ℕ)
read_chunk_size zero = out_of_fuel
read_chunk_size (suc fuel) = do
  rbuf ← buffer
  found ← parsed (parse_chunk_size_line rbuf)
  elim found [ some sized ↦ pure sized | none ↦ receive reading_body >> read_chunk_size fuel ]

-- A sum of two 64-bit numbers.
unfoldable pub sum_of : ℕ → ℕ → Reading ℕ
sum_of m n = if ltb (m + n) 18446744073709551616 then pure (m + n) else fail panicked

-- The bytes of a chunk, with the line end behind them.
unfoldable pub read_chunk : ℕ → ℕ → Reading Bytes
read_chunk fuel size = do
  needed ← sum_of size 2
  fill_to fuel needed
  chunk ← split_to size
  expect_crlf (protocol "malformed chunk terminator")
  pure chunk

-- The outer loop, with the bytes so far.
unfoldable pub read_chunks : ℕ → ℕ → ℕ → Bytes → Reading Bytes
read_chunks fuel zero max_body_bytes out = out_of_fuel
read_chunks fuel (suc rounds) max_body_bytes out = do
  sized ← read_chunk_size fuel
  advance sized.1
  elim sized.0 [
    | zero ↦ (do fill_to fuel 2; expect_crlf (protocol "chunk trailers not supported"); pure out)
    | suc n ↦ (do
      new_total ← sum_of (length out) sized.0
      elim (ltb max_body_bytes new_total) [
        | true ↦ fail (fatal (body_too_large new_total max_body_bytes))
        | false ↦ (do
          chunk ← read_chunk fuel sized.0
          read_chunks fuel rounds max_body_bytes (out ++ chunk))
      ])
  ]

unfoldable pub read_chunked_body : ℕ → ℕ → Reading Bytes
read_chunked_body fuel max_body_bytes = read_chunks fuel fuel max_body_bytes []

unfoldable pub read_body : ℕ → BodyFraming → ℕ → Reading Bytes
read_body fuel no_body max_body_bytes = pure []
read_body fuel (content_length len) max_body_bytes = elim (ltb max_body_bytes len) [
  | true ↦ fail (fatal (body_too_large len max_body_bytes))
  | false ↦ read_exact_body fuel len
]
read_body fuel chunked max_body_bytes = read_chunked_body fuel max_body_bytes

-- `Connection`, with the requests that were written, and whether each further write succeeds.
pub record Connection : Type 0 where
  pub written : List Bytes
  pub accepts : List Bool
  pub incoming : List ReadOutcome
  pub rbuf : Bytes
  pub reusable : Bool

abbrev pub with_wire : Bool → Wire → Connection → Connection
with_wire reusable w c = record c { incoming = w.incoming; rbuf = w.rbuf; reusable = reusable }

unfoldable pub attempt_of : Internal → Attempt
attempt_of (timed_out_in phase) = failed (timed_out_during phase)
attempt_of (io false) = closed_empty
attempt_of (io true) = failed closed_by_peer
attempt_of (fatal e) = failed e
attempt_of panicked = crashed

-- `finish_with_internal`
unfoldable pub finish_with_internal : Internal → Wire → Connection → Connection × Attempt
finish_with_internal internal w c = (with_wire false w c, attempt_of internal)

abbrev pub is_2xx : ℕ → Bool
is_2xx status = leb 200 status && ltb status 300

-- A body that is too large is not read when the status is an error.
unfoldable pub finish_body : Head → Internal → Wire → Connection → Connection × Attempt
finish_body head (fatal (body_too_large len limit)) w c =
    if is_2xx head.status
    then finish_with_internal (fatal (body_too_large len limit)) w c
    else (with_wire false w c, failed (http_status head.status))
finish_body head internal w c = finish_with_internal internal w c

unfoldable pub finish_response :
    Head → Connection → Wire × Result Internal Bytes → Connection × Attempt
finish_response head c (w, ok bytes) = (
  with_wire (not head.connection_close) w c,
  if is_2xx head.status then success bytes else failed (http_status head.status),
)
finish_response head c (w, err internal) = finish_body head internal w c

-- The limit for a body.
abbrev pub body_cap : Limits → Head → ℕ
body_cap limits head =
    if is_2xx head.status then limits.max_body_bytes else min discard_cap limits.max_body_bytes

-- What follows the head.
unfoldable pub respond :
    ℕ → Limits → Connection → Wire × Result Internal Head → Option (Connection × Attempt)
respond fuel limits c (w, err internal) = some (finish_with_internal internal w c)
respond fuel limits c (w, ok head) =
    elim (read_body fuel head.framing (body_cap limits head)
      (record w { rbuf = drop head.head_len w.rbuf })) [
        | none ↦ none
        | some r ↦ some (finish_response head c r)
      ]

-- What follows the write of the request.
unfoldable pub exchange : ℕ → Limits → Connection → Option (Connection × Attempt)
exchange fuel limits c =
    elim (read_head fuel limits
      (record { incoming = c.incoming; rbuf = c.rbuf; any_bytes = false })) [
        | none ↦ none
        | some r ↦ respond fuel limits c r
      ]

unfoldable pub round_trip_from :
    ℕ → Limits → Bytes → List Bool → Connection → Option (Connection × Attempt)
round_trip_from fuel limits request (true ∷ accepts) c =
    exchange fuel limits (record c { written = c.written ++ request ∷ []; accepts = accepts })
round_trip_from fuel limits request (false ∷ accepts) c =
    some (record c { accepts = accepts; reusable = false }, closed_empty)
round_trip_from fuel limits request [] c = some (record c { reusable = false }, closed_empty)

abbrev pub round_trip : ℕ → Limits → Bytes → Connection → Option (Connection × Attempt)
round_trip fuel limits request c = round_trip_from fuel limits request c.accepts c
