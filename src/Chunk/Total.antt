-- ===== src/Chunk/Total.antt =====
-- Decompression returns on every input: the loop's fuel is enough.
use radar_workstation.Common.{
  ℕ, zero, suc, ◌+◌, ◌≤◌, ◌<◌, ◌≡◌, refl, Option, some, Result, err, Bytes, length, arith,
  Result-cases, inl, inr, Bool, true, false, ltb, drop, [], Bool-cases,
}
use radar_workstation.Chunk.{
  ChunkKind, start, intermediate, end_chunk, ChunkError, too_short, kind_mismatch, BzDecoder,
  decompress_block_bounded, BlockStep, finished, cut_short, block, block_at, block_behind,
  block_behind, after_block, walk_blocks, decompress_blocks, decompress_kind, decompress_chunk,
  detect_chunk_kind, kind_eq,
}

-- A block is read within the data, and the next offset is behind its prefix.
abbrev Proceeds : Bytes → ℕ → BlockStep → Type 0
Proceeds raw offset finished = Unit {0}
Proceeds raw offset cut_short = Unit {0}
Proceeds raw offset (block compressed next) = (offset + 4 ≤ length raw) × (offset + 4 ≤ next)

block_at-Proceeds :
    (raw : Bytes) (s : Bool) (offset : ℕ) → Proceeds raw offset (block_at raw s offset)
unfolding block_at block_behind
block_at-Proceeds raw s offset = ground arith

module _ (bz : BzDecoder) (raw : Bytes) (s : Bool) where
  after_block_total :
      (rest : ℕ → Bytes → ℕ → Option (Result ChunkError Bytes)) (offset : ℕ) (b : BlockStep)
      (out : Bytes) (budget : ℕ)
      → Proceeds raw offset b
      → ((next : ℕ) (out' : Bytes) (budget' : ℕ)
          → offset + 4 ≤ length raw
          → offset + 4 ≤ next
          → (r : Result ChunkError Bytes) × (rest next out' budget' ≡ some r))
      → (r : Result ChunkError Bytes) × (after_block bz rest b out budget ≡ some r)
  unfolding after_block
  after_block_total rest offset finished out budget p ih = (_, refl)
  after_block_total rest offset cut_short out budget p ih = (_, refl)
  after_block_total rest offset (block c next) out budget p ih =
      elim (Result-cases (decompress_block_bounded bz c out budget)) [
        | inl ((out', budget'), went) ↦
            let (q, e) = ih next out' budget' p.0 p.1 in (q, rw (went, after_block) e)
        | inr (e, failed) ↦ (err e, rw (failed, after_block))
      ]

  walk_blocks_total :
      (fuel offset : ℕ) (out : Bytes) (budget : ℕ)
      → 0 < fuel
      → length raw < offset + fuel
      → (r : Result ChunkError Bytes) × (walk_blocks bz raw s fuel offset out budget ≡ some r)
  unfolding walk_blocks
  walk_blocks_total zero offset out budget pos h = absurd (omega arith)
  walk_blocks_total (suc fuel) offset out budget pos h =
      after_block_total (walk_blocks bz raw s fuel) offset (block_at raw s offset) out budget
        (block_at-Proceeds raw s offset)
        (λ next out' budget' fits forward.
          walk_blocks_total fuel next out' budget' (omega arith) (omega arith))

decompress_blocks_total :
    (bz : BzDecoder) (raw : Bytes) (s : Bool)
    → (r : Result ChunkError Bytes) × (decompress_blocks bz raw s ≡ some r)
unfolding decompress_blocks
decompress_blocks_total bz raw s = walk_blocks_total bz raw s _ 0 [] _ (omega arith) (omega arith)

decompress_kind_total :
    (bz : BzDecoder) (raw : Bytes) (kind : ChunkKind)
    → (r : Result ChunkError Bytes) × (decompress_kind bz raw kind ≡ some r)
unfolding decompress_kind
decompress_kind_total bz raw start = elim (Bool-cases (ltb (length raw) 28)) [
  | inl short ↦ (err too_short, rw (short, decompress_kind))
  | inr long ↦
      let (r, e) = decompress_blocks_total bz (drop 24 raw) true in
      (r, rw (long, decompress_kind) e)
]
decompress_kind_total bz raw intermediate = decompress_blocks_total bz raw false
decompress_kind_total bz raw end_chunk = (_, refl)

-- Decompression of any bytes as any kind, with any decoder, returns: the message stream, or the
-- error that stopped it.
pub decompress_chunk_total :
    (bz : BzDecoder) (raw : Bytes) (expected : ChunkKind)
    → (r : Result ChunkError Bytes) × (decompress_chunk bz raw expected ≡ some r)
unfolding decompress_chunk
decompress_chunk_total bz raw expected = elim (Result-cases (detect_chunk_kind raw)) [
  | inr (e, failed) ↦ (err e, rw (failed, decompress_chunk))
  | inl (kind, found) ↦ elim (Bool-cases (kind_eq kind expected)) [
    | inl same ↦
        let (r, e) = decompress_kind_total bz raw kind in
        (r, rw (found, decompress_chunk) (rw same e))
    | inr other ↦ (err (kind_mismatch expected kind), rw (found, decompress_chunk) (rw other refl))
  ]
]
