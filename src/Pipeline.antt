-- ===== src/Pipeline.antt =====
-- crates/radar-workstation/src/assembly/mod.rs: `decode_and_ingest` and the loop of `run`, which
-- join the chunk decompression, the stream parsers and the volume assembler.
pub mod Calls
pub mod Delivery
use radar_workstation.Common.{
  ℕ, Option, none, some, Result, ok, err, Bytes, List, [], ◌∷◌, ◌++◌, if◌then◌else◌, true, false,
}
use radar_workstation.Common.Maybe.{◌>>=◌}
use radar_workstation.Chunk.{ChunkKind, start, ChunkError, BzDecoder, decompress_chunk, kind_eq}
use radar_workstation.Decoder.Cursor.{DecodeError}
use radar_workstation.Decoder.Float32.{FloatOps}
use radar_workstation.Decoder.Radial.{Radial}
use radar_workstation.Decoder.Stream.{VolumeMetadata, parse_metadata_stream, parse_radial_stream}
use radar_workstation.Decoder.Vcp.{VcpDefinition}
use radar_workstation.Assembly.{
  VolumeAssembler, Step, HashOrder, on_start_chunk, on_chunk, on_tick, ◌▹◌,
}

-- What a run has from outside: the bzip2 crate, the float operations, and a hash map's order.
pub record Platform : Type 0 where
  pub bz : BzDecoder
  pub floats : FloatOps
  pub order : HashOrder

pub record ChunkEnvelope : Type 0 where
  pub kind : ChunkKind
  pub raw_bytes : Bytes

-- `.ok().and_then(|m| m.vcp)`
abbrev pub vcp_of : Result DecodeError VolumeMetadata → Option VcpDefinition
vcp_of (ok m) = m.vcp
vcp_of (err e) = none

unfoldable pub ingest_radials :
    Platform → ChunkKind → ℕ → VolumeAssembler → Result DecodeError (List Radial) → Step
ingest_radials p kind now a (ok radials) = on_chunk p.order kind radials now a
ingest_radials p kind now a (err e) = (a, [])

-- The message stream of a chunk, once decompressed. `none` stands for a parser out of fuel.
unfoldable pub ingest_stream : Platform → ChunkKind → ℕ → VolumeAssembler → Bytes → Option Step
ingest_stream p kind now a bytes =
    if kind_eq kind start
    then (do
      metadata ← parse_metadata_stream p.floats bytes
      some (on_start_chunk (vcp_of metadata) now a))
    else (do
      radials ← parse_radial_stream p.floats bytes
      some (ingest_radials p kind now a radials))

unfoldable pub ingest_decompressed :
    Platform → ChunkKind → ℕ → VolumeAssembler → Result ChunkError Bytes → Option Step
ingest_decompressed p kind now a (ok bytes) = ingest_stream p kind now a bytes
ingest_decompressed p kind now a (err e) = some (a, [])

unfoldable pub decode_and_ingest : Platform → ChunkEnvelope → ℕ → VolumeAssembler → Option Step
decode_and_ingest p envelope now a = do
  decompressed ← decompress_chunk p.bz envelope.raw_bytes envelope.kind
  ingest_decompressed p envelope.kind now a decompressed

-- What `select!` takes in a round: a chunk that was received, or a tick. The list ends where the
-- loop returns: the channel is closed, its reader is gone, or the shutdown is published.
pub data Input : Type 0 where
  received : ChunkEnvelope → ℕ → Input
  ticked : ℕ → Input

unfoldable pub round : Platform → Input → VolumeAssembler → Option Step
round p (received envelope now) a = decode_and_ingest p envelope now a
round p (ticked now) a = some (on_tick now a)

-- The assembler after the rounds, and the events sent.
unfoldable pub run : Platform → List Input → VolumeAssembler → Option Step
run p [] a = some (a, [])
run p (i ∷ inputs) a = do s ← round p i a; t ← run p inputs s.0; some (t.0, s.1 ++ t.1)
