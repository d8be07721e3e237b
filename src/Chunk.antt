-- ===== src/Chunk.antt =====
-- crates/radar-workstation/src/chunk.rs: what kind a raw chunk is, and its decompression, block by
-- block, under one bound on the decompressed size.
pub mod Total
pub mod Bound
pub mod Blocks
pub mod Start
use radar_workstation.Common.{
  ℕ, zero, suc, ◌+◌, ◌-◌, ◌*◌, ◌^◌, String, Option, none, some, Result, ok, err, and_then, ok_or,
  Bytes, length, slice, get_slice?, leb, ltb, ◌==◌, if◌then◌else◌, List, [], ◌∷◌, ◌++◌, ◌&&◌, Bool,
  true, false, take, drop, not,
}
use radar_workstation.Common.Int.{ℤ, pos, negsuc, as_i32}
use radar_workstation.Common.Text.{codes, bytes_eq}
use radar_workstation.Decoder.Cursor.{from_be_bytes}

abbrev pub volume_header_len : ℕ
volume_header_len = 24

abbrev pub block_len_prefix : ℕ
block_len_prefix = 4

abbrev pub start_sentinel : ℕ
start_sentinel = 4294967295

abbrev pub max_decompressed_chunk_bytes : ℕ
max_decompressed_chunk_bytes = 33554432

pub data ChunkKind : Type 0 where
  start intermediate end_chunk : ChunkKind

-- An `io::Error` stands for its text.
abbrev pub IoError : Type 0
IoError = String

pub data ChunkError : Type 0 where
  too_short unrecognized_format : ChunkError
  kind_mismatch : ChunkKind → ChunkKind → ChunkError
  decompression : IoError → ChunkError
  decompressed_too_large : ℕ → ChunkError

-- The crate bzip2: what its decoder yields when it is read to the end of the compressed bytes, and
-- the error that it stops with, if any.
pub record BzDecoder : Type 0 where
  pub yields : Bytes → Bytes × Option IoError

-- The bytes `data[pos..pos + 4]`, which every caller has checked to be there.
abbrev pub read_be4 : Bytes → ℕ → Bytes
read_be4 raw at = slice raw at 4

abbrev pub is_negative : ℤ → Bool
is_negative (pos n) = false
is_negative (negsuc n) = true

abbrev pub unsigned_abs : ℤ → ℕ
unsigned_abs (pos n) = n
unsigned_abs (negsuc n) = n + 1

unfoldable pub detect_chunk_kind : Bytes → Result ChunkError ChunkKind
detect_chunk_kind raw =
    if ltb (length raw) 8
    then err too_short
    else if bytes_eq (slice raw 0 4) (codes "AR2V")
    then ok start
    else if bytes_eq (slice raw 4 4) (codes "BZh9")
    then (if is_negative (as_i32 (from_be_bytes (read_be4 raw 0)))
        then ok end_chunk
        else ok intermediate)
    else if leb 32 (length raw) && bytes_eq (slice raw 28 4) (codes "BZh9")
    then ok start
    else err unrecognized_format

-- `take(limit)` and `read_to_end`: a reader is not read past the limit, so an error that it would
-- give later does not show.
unfoldable pub read_limited : ℕ → Bytes × Option IoError → Result IoError Bytes
read_limited limit (bytes, stop) =
    if leb limit (length bytes)
    then ok (take limit bytes)
    else elim stop [ none ↦ ok bytes | some e ↦ err e ]

-- The output with the block's bytes, and the budget that is left. `*budget + 1` is far below 2^64.
unfoldable pub decompress_block_bounded :
    BzDecoder → Bytes → Bytes → ℕ → Result ChunkError (Bytes × ℕ)
decompress_block_bounded bz compressed out budget =
    elim (read_limited (budget + 1) (bz.yields compressed)) [
      | err e ↦ err (decompression e)
      | ok bytes ↦
          if ltb budget (length bytes)
          then err (decompressed_too_large max_decompressed_chunk_bytes)
          else ok (out ++ bytes, budget - length bytes)
    ]

-- What one round of the loop of `decompress_blocks` finds at an offset.
pub data BlockStep : Type 0 where
  -- The loop's condition fails, or the sentinel is read.
  finished : BlockStep
  -- The block is not all there.
  cut_short : BlockStep
  -- The compressed bytes of a block, and the offset behind it.
  block : Bytes → ℕ → BlockStep

-- The round once the length word is read; the offset is behind it.
unfoldable pub block_behind : Bytes → Bool → ℕ → ℕ → BlockStep
block_behind raw has_sentinel offset len_word =
    if has_sentinel && len_word == start_sentinel
    then finished
    else elim (get_slice? raw offset len_word) [
      | none ↦ cut_short
      | some compressed ↦ block compressed (offset + len_word)
    ]

unfoldable pub block_at : Bytes → Bool → ℕ → BlockStep
block_at raw has_sentinel offset =
    if leb (offset + block_len_prefix) (length raw)
    then block_behind raw has_sentinel (offset + block_len_prefix)
        (from_be_bytes (read_be4 raw offset))
    else finished

-- The rest of a round, `rest` being the loop from the next offset on.
unfoldable pub after_block :
    BzDecoder
    → (ℕ → Bytes → ℕ → Option (Result ChunkError Bytes))
    → BlockStep
    → Bytes
    → ℕ
    → Option (Result ChunkError Bytes)
after_block bz rest finished out budget = some (ok out)
after_block bz rest cut_short out budget = some (err too_short)
after_block bz rest (block compressed offset) out budget =
    elim (decompress_block_bounded bz compressed out budget) [
      | ok (out', budget') ↦ rest offset out' budget'
      | err e ↦ some (err e)
    ]

-- The loop on fuel; `none` means that the fuel ran out.
unfoldable pub walk_blocks :
    BzDecoder → Bytes → Bool → ℕ → ℕ → Bytes → ℕ → Option (Result ChunkError Bytes)
walk_blocks bz raw has_sentinel zero offset out budget = none
walk_blocks bz raw has_sentinel (suc fuel) offset out budget =
    after_block bz (walk_blocks bz raw has_sentinel fuel) (block_at raw has_sentinel offset) out
      budget

-- The fuel: a round for each byte, and one for the test at the end.
unfoldable pub decompress_blocks : BzDecoder → Bytes → Bool → Option (Result ChunkError Bytes)
decompress_blocks bz raw has_sentinel =
    walk_blocks bz raw has_sentinel (length raw + 1) 0 [] max_decompressed_chunk_bytes

abbrev pub kind_eq : ChunkKind → ChunkKind → Bool
kind_eq start start = true
kind_eq intermediate intermediate = true
kind_eq end_chunk end_chunk = true
kind_eq _ _ = false

-- The arm of `ChunkKind::End`: one block, whose length is the prefix's absolute value.
unfoldable pub decompress_end : BzDecoder → Bytes → Result ChunkError Bytes
decompress_end bz raw =
    if ltb (length raw) block_len_prefix
    then err too_short
    else let block_len = unsigned_abs (as_i32 (from_be_bytes (read_be4 raw 0))) in
      and_then (ok_or too_short (get_slice? raw block_len_prefix block_len)) (λ compressed.
        and_then (decompress_block_bounded bz compressed [] max_decompressed_chunk_bytes)
          (λ r. ok r.0))

-- The match on the kind that was detected.
unfoldable pub decompress_kind : BzDecoder → Bytes → ChunkKind → Option (Result ChunkError Bytes)
decompress_kind bz raw start =
    if ltb (length raw) (volume_header_len + block_len_prefix)
    then some (err too_short)
    else decompress_blocks bz (drop volume_header_len raw) true
decompress_kind bz raw intermediate = decompress_blocks bz raw false
decompress_kind bz raw end_chunk = some (decompress_end bz raw)

unfoldable pub decompress_chunk : BzDecoder → Bytes → ChunkKind → Option (Result ChunkError Bytes)
decompress_chunk bz raw expected = elim (detect_chunk_kind raw) [
  | err e ↦ some (err e)
  | ok detected ↦
      if not (kind_eq detected expected)
      then some (err (kind_mismatch expected detected))
      else decompress_kind bz raw detected
]
