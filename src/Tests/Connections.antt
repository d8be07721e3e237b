-- ===== src/Tests/Connections.antt =====
-- The theorems on a connection and on the client, with a response of five bytes in two reads.
use radar_workstation.Common.{
  ℕ, ◌+◌, ◌≡◌, refl, arith, some, Result, ok, Bytes, List, [], ◌∷◌, ◌++◌, true, false, not,
}
use radar_workstation.Common.Text.{codes, bytes_eq}
use radar_workstation.Http.{HttpError}
use radar_workstation.Http.Ascii.{
  is_tchar, is_vchar_sp_htab, eq_ignore_ascii_case, position, rposition, trim_ows, number_onto,
}
use radar_workstation.Http.Response.{
  parse_head, parse_lines, parse_status_line, split_header, parse_header_line, parse_content_length,
  apply_header, apply_headers, framing_of, framed_twice, finish_head, scan_lines, line_at,
  parse_scanned, push_line,
}
use radar_workstation.Http.Connection.{
  ReadOutcome, received, Connection, success, round_trip, receive_from, split_to, read_head,
  fill_to, read_exact_body, read_body, finish_response, respond, exchange, round_trip_from, parsed,
}
use radar_workstation.Http.Connection.Exact.{round_trip-Exact, pending, wire_of}
use radar_workstation.Http.Client.{
  S3Client, answered, attempt, answer, attempt_once, attempt_fresh, after_reused, send_on, send,
}
use radar_workstation.Http.Client.Retry.{IsKept, Redials, send-IsKept}
use radar_workstation.Tests.Responses.{head_bytes, head, small}

abbrev reads : List ReadOutcome
reads = received (head_bytes ++ codes "he") ∷ received (codes "lloHTTP") ∷ []

abbrev fresh : Connection
fresh = record { written = []; accepts = true ∷ []; incoming = reads; rbuf = []; reusable = true }

head_bytes-parsed : parse_head head_bytes small ≡ ok (some head)
unfolding parse_head scan_lines line_at push_line parse_scanned parse_lines parse_status_line
    bytes_eq is_vchar_sp_htab number_onto apply_headers parse_header_line position split_header
    trim_ows rposition is_tchar apply_header eq_ignore_ascii_case parse_content_length finish_head
    framed_twice framing_of
head_bytes-parsed = refl

round_trip-Exact_example :
    (d : Connection) × (round_trip 3 small (codes "GET") fresh ≡ some (d, success (codes "hello")))
    × (d.written ≡ codes "GET" ∷ [])
    × (d.reusable ≡ not head.connection_close)
    × (pending (wire_of d) ≡ codes "HTTP")
round_trip-Exact_example =
    round_trip-Exact 3 small (codes "GET") [] fresh head head_bytes (codes "hello") (codes "HTTP")
      refl tt (omega arith) refl head_bytes-parsed refl refl refl (omega arith)

-- The kept connection fails on the write, and the fresh one answers.
abbrev stale : Connection
stale = record fresh { accepts = false ∷ []; incoming = [] }

abbrev connect : ℕ → ℕ × Result HttpError Connection
connect n = (n + 1, ok fresh)

abbrev get_line : Bytes → Bytes
get_line path = codes "GET " ++ path

abbrev client : S3Client ℕ
client = record { conn = some stale; network = 0 }

abbrev after : S3Client ℕ
after = record {
  conn = some (record {
    written = codes "GET /a" ∷ [];
    accepts = [];
    incoming = [];
    rbuf = codes "HTTP";
    reusable = true;
  });
  network = 1;
}

sent :
    send connect get_line 3 small (codes "/a") client ≡ some (after, answered (ok (codes "hello")))
unfolding parse_head scan_lines line_at push_line parse_scanned parse_lines parse_status_line
    bytes_eq is_vchar_sp_htab number_onto apply_headers parse_header_line position split_header
    trim_ows rposition is_tchar apply_header eq_ignore_ascii_case parse_content_length finish_head
    framed_twice framing_of receive_from split_to read_head fill_to read_exact_body read_body
    finish_response respond exchange round_trip_from parsed attempt answer attempt_once
    attempt_fresh after_reused send_on
sent = refl

send-IsKept_example : IsKept after.conn × Redials client.conn client after
send-IsKept_example =
    send-IsKept connect get_line 3 small (codes "/a") client after (answered (ok (codes "hello")))
      sent
