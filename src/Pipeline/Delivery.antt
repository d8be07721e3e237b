-- ===== src/Pipeline/Delivery.antt =====
-- From the blocks of an `-I` chunk to the call of the assembler.
use radar_workstation.Common.{
  ℕ, ◌≤◌, ◌<◌, ◌≡◌, ap, ◌∙◌, some, ok, Bytes, List, ◌++◌, length, inl, le→leb, false, refl,
}
use radar_workstation.Chunk.{
  intermediate, detect_chunk_kind, decompress_chunk, decompress_kind, max_decompressed_chunk_bytes,
}
use radar_workstation.Chunk.Blocks.{
  Block, AllBlocks, blocks_bytes, inflated, decompress_blocks-blocks,
}
use radar_workstation.Decoder.Radial.{Radial}
use radar_workstation.Decoder.Stream.{parse_radial_stream}
use radar_workstation.Decoder.Stream.Segments.{Segment, AllSegments, stream_bytes}
use radar_workstation.Decoder.Stream.Radials.{
  radial_records, decode_all, parse_radial_stream-segments,
}
use radar_workstation.Assembly.{VolumeAssembler, on_chunk}
use radar_workstation.Pipeline.{
  Platform, decode_and_ingest, ingest_decompressed, ingest_stream, ingest_radials,
}

module _ (p : Platform) (bs : List Block) (tail : Bytes) (blocks : AllBlocks p.bz bs)
    (short : length tail < 4)
    (fits : length (inflated p.bz bs) ≤ max_decompressed_chunk_bytes) where
  decompress_chunk-blocks :
      detect_chunk_kind (blocks_bytes bs ++ tail) ≡ ok intermediate
      → decompress_chunk p.bz (blocks_bytes bs ++ tail) intermediate ≡ some (ok (inflated p.bz bs))
  unfolding decompress_chunk decompress_kind
  decompress_chunk-blocks kind =
      rw (kind, decompress_chunk)
        (decompress_blocks-blocks p.bz false bs tail blocks (inl short)
          ∙ ap some
              (rw (le→leb (length (inflated p.bz bs)) max_decompressed_chunk_bytes fits) refl))

module _ (p : Platform) (bs : List Block) (tail : Bytes) (segs : List Segment) (rest : Bytes)
    (radials : List Radial) where
  -- An `-I` chunk whose blocks inflate to a stream of well-formed messages, all of whose Message 31
  -- records decode, feeds the assembler exactly the radials of these records, in order.
  pub decode_and_ingest-blocks :
      (now : ℕ) (a : VolumeAssembler)
      → detect_chunk_kind (blocks_bytes bs ++ tail) ≡ ok intermediate
      → AllBlocks p.bz bs
      → length tail < 4
      → inflated p.bz bs ≡ stream_bytes segs ++ rest
      → length (inflated p.bz bs) ≤ max_decompressed_chunk_bytes
      → AllSegments segs
      → length rest < 28
      → decode_all p.floats (radial_records segs) ≡ ok radials
      → decode_and_ingest p
          (record { kind = intermediate; raw_bytes = blocks_bytes bs ++ tail })
          now
          a
        ≡ some (on_chunk p.order intermediate radials now a)
  unfolding decode_and_ingest ingest_decompressed ingest_stream ingest_radials
  decode_and_ingest-blocks now a kind blocks short stream fits segments few decoded =
      let radials_read : parse_radial_stream p.floats (inflated p.bz bs) ≡ some (ok radials) =
        ap (parse_radial_stream p.floats) stream
        ∙ parse_radial_stream-segments p.floats segs rest segments few
        ∙ ap some decoded in
      rw (decompress_chunk-blocks p bs tail blocks short fits kind, decode_and_ingest)
        (rw radials_read refl)
