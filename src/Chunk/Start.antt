-- ===== src/Chunk/Start.antt =====
-- A whole start chunk: the volume header, the blocks, and the sentinel.
use radar_workstation.Common.{
  ◌≤◌, ◌≡◌, refl, ap, sym, ◌∙◌, true, some, ok, Bytes, List, [], ◌++◌, length, length-append, drop,
  slice, take-append_left, drop-append, arith, inr, le→ltb,
}
use radar_workstation.Common.Text.{codes, bytes_eq_refl}
use radar_workstation.Decoder.Cursor.{from_be_bytes}
use radar_workstation.Chunk.{
  start, BzDecoder, detect_chunk_kind, decompress_kind, decompress_blocks, decompress_chunk,
  max_decompressed_chunk_bytes, start_sentinel,
}
use radar_workstation.Chunk.Blocks.{
  Block, AllBlocks, blocks_bytes, inflated, within, decompress_blocks-blocks,
}

detect_chunk_kind-start :
    (header rest : Bytes)
    → length header ≡ 24
    → slice header 0 4 ≡ codes "AR2V"
    → detect_chunk_kind (header ++ rest) ≡ ok start
unfolding detect_chunk_kind
detect_chunk_kind-start header rest size magic =
    let found : slice (header ++ rest) 0 4 ≡ codes "AR2V" =
      take-append_left 4 header rest (omega (arith, size)) ∙ magic in
    rw (le→ltb (length (header ++ rest)) 8 (omega (arith, size, length-append header rest)))
      (rw found (rw (bytes_eq_refl (codes "AR2V")) refl))

decompress_kind-start :
    (bz : BzDecoder) (header rest : Bytes)
    → length header ≡ 24
    → 4 ≤ length rest
    → decompress_kind bz (header ++ rest) start ≡ decompress_blocks bz rest true
unfolding decompress_kind
decompress_kind-start bz header rest size room =
    rw (le→ltb (length (header ++ rest)) 28 (omega (arith, size, length-append header rest))) (
      ap (λ l. decompress_blocks bz l true)
        (ap (λ n. drop n (header ++ rest)) (sym size) ∙ drop-append header rest))

-- A start chunk with a volume header of 24 bytes, blocks that the decoder reads to their ends, and
-- the sentinel behind them, decompresses to the blocks' outputs in order, or to the error of the
-- bound if they exceed it; the header and what stands behind the sentinel are dropped.
pub decompress_chunk-start :
    (bz : BzDecoder) (header : Bytes) (bs : List Block) (tail : Bytes)
    → length header ≡ 24
    → slice header 0 4 ≡ codes "AR2V"
    → AllBlocks bz bs
    → 4 ≤ length tail
    → from_be_bytes (slice tail 0 4) ≡ start_sentinel
    → decompress_chunk bz (header ++ (blocks_bytes bs ++ tail)) start
      ≡ some (within max_decompressed_chunk_bytes [] (inflated bz bs))
unfolding decompress_chunk
decompress_chunk-start bz header bs tail size magic blocks room sentinel =
    rw (detect_chunk_kind-start header (blocks_bytes bs ++ tail) size magic, decompress_chunk)
      (decompress_kind-start bz header (blocks_bytes bs ++ tail) size
          (omega (arith, room, length-append (blocks_bytes bs) tail))
        ∙ decompress_blocks-blocks bz true bs tail blocks (inr (refl, room, sentinel)))
