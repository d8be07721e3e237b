-- ===== src/Lib.antt =====
-- The radar workstation's verification library: the way of a chunk of NEXRAD data from its raw
-- bytes to the events of the volume assembler, the HTTP client and the poller that fetch the chunks,
-- the shared state that is displayed and the configuration, and the theorems that these are correct.
--
-- The program polls raw chunks with an HTTP client of its own, and for each one detects its kind,
-- decompresses its bzip2 blocks, walks the message stream, decodes the radials (Message 31) or the
-- volume coverage pattern (Message 5), and hands them to a state machine that puts radials into sweeps
-- and sweeps into volumes and reports what it closes by events.
--
-- Decoder: crates/nexrad-decoder/src. Decoder/Cursor is parse/cursor.rs, with each read a function
-- from the cursor to a result and the moved cursor; Decoder/Headers has the sequences of reads of
-- fixed headers, Decoder/Product is types/product.rs and parse/product.rs, Decoder/Radial is
-- parse/radial.rs and parse/blocks.rs, Decoder/Vcp is parse/message5.rs, Decoder/Stream is
-- parse/mod.rs. Their child modules hold the proofs: Layout modules describe a record by offsets.
-- Chunk: crates/radar-workstation/src/chunk.rs (detect_chunk_kind, decompress_chunk,
-- decompress_blocks, decompress_block_bounded).
-- Assembly: crates/radar-workstation/src/assembly/mod.rs and context.rs. A method is a function
-- from the assembler to the assembler after it and the events pushed; `step` is one call of the
-- owning task and `run_calls` a sequence of them. Assembly/Volume has the context, the sweep
-- builder and the types of sweeps, volumes and events.
-- Pipeline: decode_and_ingest and run of the same file, which join the three.
-- Http: crates/http-ingest/src/response.rs, the head of a response (parse_head and the parsers of its
-- lines) and the size line of a body's chunk, with Limits of config.rs and the errors that are used;
-- Http/Request is encode.rs, host.rs and the targets of request.rs.
-- Ingest: crates/radar-workstation/src/ingest/s3_poll.rs. Ingest/Listing is parse_list_xml over the
-- events of the XML crate, Ingest/Pages the loops over pages, Ingest/Poller the fields of S3Poller and
-- what each part of a poll assigns, Ingest/Rounds poll_once and run: a call takes the context (the
-- servers' state, the poller, the reports) to the context after it and a result, and `?` is the bind
-- of Ingest/Action. The client's calls are a record of functions on a state of any type.
-- Event: event.rs, the events and the log. State: state/mod.rs and state/apply.rs, and apply_loop of
-- pipeline.rs. Compute: the displayed products of compute/mod.rs.
-- Http/Connection: crates/http-ingest/src/connection.rs, where a stream is the list of what its reads
-- come to (bytes, an error, a timeout); Http/Client: send and attempt of crates/http-ingest/src/lib.rs,
-- with the dial of a connection a parameter. The loops of reads run on fuel: one round
-- more than the stream has reads is enough.
-- Config: crates/radar-workstation/src/config: load of mod.rs on the text of the file, parse.rs, and the
-- lines of save.rs; Config/Sites is by_id of sites.rs, and
-- Config/Cli parse and resolve_site of cli.rs. A `str` is the list of its characters.
-- Common: Booleans, lists, results and integers on the native numbers. Tests: concrete inputs.
--
-- Bytes are natural numbers. A `usize` sum is written out modulo 2 ^ 64 only where the source checks
-- it (`Cursor::skip`); elsewhere the operands are bounded by the length of a slice and by fields of at
-- most 32 bits, so that a sum stays below 2 ^ 64. `saturating_sub` and `Instant::duration_since` are
-- the subtraction that stops at 0. An `f32` stands for its bits, and its arithmetic is the parameter
-- FloatOps, without any hypothesis. The bzip2 decoder is the parameter BzDecoder: the bytes that it
-- yields and the error that it stops with. The order of a hash map's iteration is the parameter
-- HashOrder, of which the balance of radials assumes that each entry is visited once. The field
-- `data` of a product is `gates`.
--
-- Counters of the poller are `u32` and `u64`. The overflow checks are on in every build: a sum that
-- does not fit ends the task, and the call has no result (`checked` of Ingest/Rounds).
-- The loops over pages run on fuel, since a server may answer truncated pages for ever; with more
-- fuel than there are pages the loop comes to its end.
--
-- The loop over messages runs on fuel, one round more than the stream has bytes: every round
-- goes on by at least four bytes. The loop over blocks has the same bound for the same reason.
--
-- Not modelled: capacities of vectors, the text of errors, sharing by Arc (the values are immutable),
-- the async runtime (a run is the sequence of what was received and of ticks), the sockets and TLS,
-- the file system, gridding, rendering and the map.
pub mod Common
pub mod Decoder
pub mod Chunk
pub mod Assembly
pub mod Pipeline
pub mod Http
pub mod Compute
pub mod Ingest
pub mod Event
pub mod State
pub mod Config
pub mod Tests
