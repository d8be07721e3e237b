-- ===== src/Tests/Chunks.antt =====
-- The theorems on chunks, and on the way from a chunk to the assembler, on concrete chunks.
use radar_workstation.Common.{
  replicate, slice, ◌≡◌, refl, some, ok, Result, Bytes, List, [], ◌∷◌, ◌++◌, arith, inr, true,
}
use radar_workstation.Common.Int.{as_i32}
use radar_workstation.Common.Text.{codes, bytes_eq}
use radar_workstation.Chunk.{
  start, start_sentinel, intermediate, end_chunk, ChunkError, detect_chunk_kind, decompress_chunk,
  decompress_blocks, max_decompressed_chunk_bytes,
}
use radar_workstation.Chunk.Start.{decompress_chunk-start}
use radar_workstation.Chunk.Blocks.{
  Block, AllBlocks, Ends, blocks_bytes, inflated, within, decompress_blocks-blocks,
}
use radar_workstation.Chunk.Bound.{Bounded, decompress_chunk-Bounded}
use radar_workstation.Chunk.Total.{decompress_chunk_total}
use radar_workstation.Decoder.Cursor.{from_be_bytes}
use radar_workstation.Decoder.Radial.Layout.{radial_at}
use radar_workstation.Assembly.{VolumeAssembler, new, on_chunk, Call, run_calls}
use radar_workstation.Pipeline.{Input, received, ticked, decode_and_ingest, run}
use radar_workstation.Pipeline.Calls.{DoesAll, run-run_calls}
use radar_workstation.Pipeline.Delivery.{decode_and_ingest-blocks}
use radar_workstation.Tests.Decoding.{ref_stream-AllSegments, ref_record_parsed}
use radar_workstation.Tests.Samples.{
  plain, ref_record, ref_stream, ref_block_stored, stored_blocks, platform, insertion_order,
}

abbrev two_blocks : List Block
two_blocks =
    record { word = 0 ∷ 0 ∷ 0 ∷ 5 ∷ []; compressed = codes "BZh9" ++ 7 ∷ [] }
    ∷ record { word = 0 ∷ 0 ∷ 0 ∷ 6 ∷ []; compressed = codes "BZh9" ++ 8 ∷ 9 ∷ [] }
    ∷ []

abbrev sentinel : Bytes
sentinel = 255 ∷ 255 ∷ 255 ∷ 255 ∷ 1 ∷ []

two_blocks-AllBlocks : AllBlocks stored_blocks two_blocks
unfolding from_be_bytes
two_blocks-AllBlocks = ((refl, refl, omega arith, refl), ((refl, refl, omega arith, refl), tt))

sentinel-Ends : Ends true sentinel
unfolding from_be_bytes
sentinel-Ends = inr (refl, omega arith, refl)

decompress_blocks-blocks_example :
    decompress_blocks stored_blocks (blocks_bytes two_blocks ++ sentinel) true
    ≡ some (within max_decompressed_chunk_bytes [] (inflated stored_blocks two_blocks))
decompress_blocks-blocks_example =
    decompress_blocks-blocks stored_blocks true two_blocks sentinel two_blocks-AllBlocks
      sentinel-Ends

decompress_chunk-Bounded_example :
    Bounded (decompress_chunk stored_blocks (blocks_bytes two_blocks) intermediate)
decompress_chunk-Bounded_example =
    decompress_chunk-Bounded stored_blocks (blocks_bytes two_blocks) intermediate

decompress_chunk_total_example :
    (r : Result ChunkError Bytes) × (decompress_chunk stored_blocks
        (blocks_bytes two_blocks)
        end_chunk
      ≡ some r)
decompress_chunk_total_example =
    decompress_chunk_total stored_blocks (blocks_bytes two_blocks) end_chunk

abbrev one_block : List Block
one_block = ref_block_stored ∷ []

one_block-AllBlocks : AllBlocks stored_blocks one_block
unfolding from_be_bytes
one_block-AllBlocks = ((refl, refl, omega arith, refl), tt)

one_block-kind : detect_chunk_kind (blocks_bytes one_block ++ []) ≡ ok intermediate
unfolding detect_chunk_kind from_be_bytes as_i32 bytes_eq
one_block-kind = refl

abbrev idle_assembler : VolumeAssembler
idle_assembler = new 720

decode_and_ingest-blocks_example :
    decode_and_ingest platform
      (record { kind = intermediate; raw_bytes = blocks_bytes one_block ++ [] })
      5
      idle_assembler
    ≡ some
        (on_chunk insertion_order intermediate (radial_at plain ref_record ∷ []) 5 idle_assembler)
decode_and_ingest-blocks_example =
    decode_and_ingest-blocks platform one_block [] ref_stream [] (radial_at plain ref_record ∷ []) 5
      idle_assembler one_block-kind one_block-AllBlocks (omega arith) refl (omega arith)
      ref_stream-AllSegments (omega arith) (rw ref_record_parsed)

abbrev inputs : List Input
inputs =
    received (record { kind = intermediate; raw_bytes = blocks_bytes one_block }) 5
    ∷ ticked 800
    ∷ []

run-run_calls_example :
    (calls : List Call) × DoesAll platform inputs calls
    × (run platform inputs idle_assembler ≡ some (run_calls insertion_order calls idle_assembler))
run-run_calls_example = run-run_calls platform inputs idle_assembler

abbrev volume_header : Bytes
volume_header = codes "AR2V0006." ++ codes "001" ++ replicate 12 0

sentinel-read : from_be_bytes (slice sentinel 0 4) ≡ start_sentinel
unfolding from_be_bytes
sentinel-read = refl

decompress_chunk-start_example :
    decompress_chunk stored_blocks (volume_header ++ (blocks_bytes two_blocks ++ sentinel)) start
    ≡ some (within max_decompressed_chunk_bytes [] (inflated stored_blocks two_blocks))
decompress_chunk-start_example =
    decompress_chunk-start stored_blocks volume_header two_blocks sentinel refl refl
      two_blocks-AllBlocks (omega arith) sentinel-read
