-- ===== src/Chunk/Bound.antt =====
-- No chunk decompresses to more than the bound, whatever the decoder yields.
use radar_workstation.Common.{
  ℕ, zero, suc, ◌+◌, ◌≤◌, ◌≡◌, refl, ◌∙◌, Option, none, some, Result, ok, err, Bytes, length,
  length-append, arith, Result-cases, inl, inr, Bool, true, false, ltb, Bool-cases, Option-cases,
  drop, [], get_slice?, and_then, subst,
}
use radar_workstation.Common.Int.{as_i32}
use radar_workstation.Decoder.Cursor.{from_be_bytes}
use radar_workstation.Chunk.{
  ChunkKind, start, intermediate, end_chunk, ChunkError, BzDecoder, decompress_block_bounded,
  BlockStep, finished, cut_short, block, block_at, after_block, walk_blocks, decompress_blocks,
  decompress_kind, decompress_chunk, decompress_end, detect_chunk_kind, read_limited, kind_eq,
  unsigned_abs, read_be4, max_decompressed_chunk_bytes,
}

-- A result, if it is one, is within the bound.
abbrev pub Bounded : Option (Result ChunkError Bytes) → Type 0
Bounded none = Unit {0}
Bounded (some (err e)) = Unit {0}
Bounded (some (ok out)) = length out ≤ max_decompressed_chunk_bytes

-- A block's output is paid for by the budget.
abbrev Paid : ℕ → Result ChunkError (Bytes × ℕ) → Type 0
Paid total (err e) = Unit {0}
Paid total (ok r) = length r.0 + r.1 ≡ total

block-Paid :
    (bz : BzDecoder) (compressed out : Bytes) (budget : ℕ)
    → Paid (length out + budget) (decompress_block_bounded bz compressed out budget)
unfolding decompress_block_bounded
block-Paid bz compressed out budget =
    elim (Result-cases (read_limited (budget + 1) (bz.yields compressed))) [
      | inr (e, failed) ↦ rw (failed, decompress_block_bounded) tt
      | inl (bytes, read) ↦ elim (Bool-cases (ltb budget (length bytes))) [
        | inl over ↦ rw (read, decompress_block_bounded) (rw over tt)
        | inr within ↦
            rw (read, decompress_block_bounded)
              (rw within (ground (arith, length-append out bytes)))
      ]
    ]

module _ (bz : BzDecoder) (raw : Bytes) (s : Bool) where
  after_block-Bounded :
      (rest : ℕ → Bytes → ℕ → Option (Result ChunkError Bytes)) (b : BlockStep) (out : Bytes)
      (budget : ℕ)
      → length out + budget ≡ max_decompressed_chunk_bytes
      → ((next : ℕ) (out' : Bytes) (budget' : ℕ)
          → length out' + budget' ≡ max_decompressed_chunk_bytes
          → Bounded (rest next out' budget'))
      → Bounded (after_block bz rest b out budget)
  unfolding after_block
  after_block-Bounded rest finished out budget h ih = omega (arith, h)
  after_block-Bounded rest cut_short out budget h ih = tt
  after_block-Bounded rest (block c next) out budget h ih =
      elim (Result-cases (decompress_block_bounded bz c out budget)) [
        | inl (r, went) ↦
            let paid : Paid (length out + budget) (ok r) =
              subst (Paid (length out + budget)) went (block-Paid bz c out budget) in
            rw (went, after_block) (ih next r.0 r.1 (paid ∙ h))
        | inr (e, failed) ↦ rw (failed, after_block) tt
      ]

  walk_blocks-Bounded :
      (fuel offset : ℕ) (out : Bytes) (budget : ℕ)
      → length out + budget ≡ max_decompressed_chunk_bytes
      → Bounded (walk_blocks bz raw s fuel offset out budget)
  unfolding walk_blocks
  walk_blocks-Bounded zero offset out budget h = tt
  walk_blocks-Bounded (suc fuel) offset out budget h =
      after_block-Bounded (walk_blocks bz raw s fuel) (block_at raw s offset) out budget h
        (λ next out' budget' k. walk_blocks-Bounded fuel next out' budget' k)

decompress_blocks-Bounded :
    (bz : BzDecoder) (raw : Bytes) (s : Bool) → Bounded (decompress_blocks bz raw s)
unfolding decompress_blocks
decompress_blocks-Bounded bz raw s =
    walk_blocks-Bounded bz raw s _ 0 [] max_decompressed_chunk_bytes refl

one_block-Bounded :
    (r : Result ChunkError (Bytes × ℕ))
    → Paid max_decompressed_chunk_bytes r
    → Bounded (some (and_then r (λ p. ok p.0)))
one_block-Bounded (ok p) h = omega (arith, h)
one_block-Bounded (err e) h = tt

decompress_end-Bounded : (bz : BzDecoder) (raw : Bytes) → Bounded (some (decompress_end bz raw))
unfolding decompress_end
decompress_end-Bounded bz raw = elim (Bool-cases (ltb (length raw) 4)) [
  | inl short ↦ rw (short, decompress_end) tt
  | inr long ↦
      let block_len = unsigned_abs (as_i32 (from_be_bytes (read_be4 raw 0))) in
      elim (Option-cases (get_slice? raw 4 block_len)) [
        | inl missing ↦ rw (long, decompress_end) (rw missing tt)
        | inr (compressed, there) ↦
            rw (long, decompress_end)
              (rw there
                (one_block-Bounded _ (block-Paid bz compressed [] max_decompressed_chunk_bytes)))
      ]
]

decompress_kind-Bounded :
    (bz : BzDecoder) (raw : Bytes) (kind : ChunkKind) → Bounded (decompress_kind bz raw kind)
unfolding decompress_kind
decompress_kind-Bounded bz raw start = elim (Bool-cases (ltb (length raw) 28)) [
  | inl short ↦ rw (short, decompress_kind) tt
  | inr long ↦ rw (long, decompress_kind) (decompress_blocks-Bounded bz (drop 24 raw) true)
]
decompress_kind-Bounded bz raw intermediate = decompress_blocks-Bounded bz raw false
decompress_kind-Bounded bz raw end_chunk = decompress_end-Bounded bz raw

-- Whatever the chunk and the decoder, a chunk that decompresses gives at most 32 MiB.
pub decompress_chunk-Bounded :
    (bz : BzDecoder) (raw : Bytes) (expected : ChunkKind)
    → Bounded (decompress_chunk bz raw expected)
unfolding decompress_chunk
decompress_chunk-Bounded bz raw expected = elim (Result-cases (detect_chunk_kind raw)) [
  | inr (e, failed) ↦ rw (failed, decompress_chunk) tt
  | inl (kind, found) ↦ elim (Bool-cases (kind_eq kind expected)) [
    | inl same ↦ rw (found, decompress_chunk) (rw same (decompress_kind-Bounded bz raw kind))
    | inr other ↦ rw (found, decompress_chunk) (rw other tt)
  ]
]
