-- ===== src/Chunk/Blocks.antt =====
-- A chunk as a list of blocks, and what its decompression gives.
use radar_workstation.Common.{
  ℕ, zero, suc, ◌+◌, ◌-◌, ◌≤◌, ◌<◌, ◌≡◌, ◌≢◌, refl, ap, ap₂, sym, ◌∙◌, Option, none, some, Result,
  ok, err, Bytes, length, length-append, arith, inl, inr, Bool, true, false, leb, le→leb, lt→leb,
  le→ltb, lt→ltb, if◌then◌else◌, take, List, [], ◌∷◌, get_slice?, get_slice?-eq_some, ◌++◌, slice,
  slice-append, append_assoc, slice-append_inside, ◌⊎◌, append-nil, length-take,
}
use native.Mathlib.Decide.{dec_le}
use radar_workstation.Decoder.Cursor.{from_be_bytes}
use radar_workstation.Chunk.{
  ChunkError, IoError, decompressed_too_large, BzDecoder, decompress_block_bounded, finished, block,
  block_at, block_behind, after_block, walk_blocks, decompress_blocks, read_limited,
  max_decompressed_chunk_bytes, start_sentinel, read_be4,
}

-- A length word and as many compressed bytes.
pub record Block : Type 0 where
  pub word : Bytes
  pub compressed : Bytes

abbrev pub block_bytes : Block → Bytes
block_bytes b = b.word ++ b.compressed

abbrev pub blocks_bytes : List Block → Bytes
blocks_bytes [] = []
blocks_bytes (b ∷ bs) = block_bytes b ++ blocks_bytes bs

-- The word is the length, it is not the sentinel, and the decoder reads the block to its end.
abbrev pub IsBlock : BzDecoder → Block → Type 0
IsBlock bz b =
    (length b.word ≡ 4)
    × (from_be_bytes b.word ≡ length b.compressed)
    × (length b.compressed ≢ start_sentinel)
    × ((bz.yields b.compressed).1 ≡ none)

abbrev pub AllBlocks : BzDecoder → List Block → Type 0
AllBlocks bz [] = Unit {0}
AllBlocks bz (b ∷ bs) = IsBlock bz b × AllBlocks bz bs

abbrev pub inflated : BzDecoder → List Block → Bytes
inflated bz [] = []
inflated bz (b ∷ bs) = (bz.yields b.compressed).0 ++ inflated bz bs

-- What may stand behind the blocks: less than a length word, or the sentinel in a start chunk.
abbrev pub Ends : Bool → Bytes → Type 0
Ends s tail =
    (length tail < 4)
    ⊎ ((s ≡ true) × (4 ≤ length tail) × (from_be_bytes (slice tail 0 4) ≡ start_sentinel))

-- The output within a budget, or the error.
abbrev pub within : ℕ → Bytes → Bytes → Result ChunkError Bytes
within budget out more =
    if leb (length more) budget
    then ok (out ++ more)
    else err (decompressed_too_large max_decompressed_chunk_bytes)

read_limited-fits :
    (limit : ℕ) (p : Bytes × Option IoError)
    → p.1 ≡ none
    → length p.0 < limit
    → read_limited limit p ≡ ok p.0
unfolding read_limited
read_limited-fits limit (bytes, none) n h = ground arith
read_limited-fits limit (bytes, some e) n h = cc

read_limited-over :
    (limit : ℕ) (p : Bytes × Option IoError)
    → limit ≤ length p.0
    → read_limited limit p ≡ ok (take limit p.0)
unfolding read_limited
read_limited-over limit (bytes, stop) h = ground arith

regroup_block :
    (before w c after : Bytes) → before ++ (w ++ c) ++ after ≡ before ++ w ++ (c ++ after)
regroup_block before w c after = simp append_assoc

regroup_body :
    (before w c after : Bytes) → before ++ (w ++ c) ++ after ≡ (before ++ w) ++ c ++ after
regroup_body before w c after = simp append_assoc

block_at-fits :
    (raw : Bytes) (s : Bool) (offset : ℕ)
    → offset + 4 ≤ length raw
    → block_at raw s offset ≡ block_behind raw s (offset + 4) (from_be_bytes (read_be4 raw offset))
unfolding block_at
block_at-fits raw s offset h = rw (le→leb (offset + 4) (length raw) h)

block_behind-block :
    (raw : Bytes) (s : Bool) (offset n : ℕ) (c : Bytes)
    → n ≢ start_sentinel
    → get_slice? raw offset n ≡ some c
    → block_behind raw s offset n ≡ block c (offset + n)
unfolding block_behind
block_behind-block raw true offset n c ne got = ground (arith, got)
block_behind-block raw false offset n c ne got = rw got

module _ (bz : BzDecoder) (b : Block) (v : IsBlock bz b) where
  bounded-fits :
      (out : Bytes) (budget : ℕ)
      → length (bz.yields b.compressed).0 ≤ budget
      → decompress_block_bounded bz b.compressed out budget
        ≡ ok (out ++ (bz.yields b.compressed).0, budget - length (bz.yields b.compressed).0)
  unfolding decompress_block_bounded
  bounded-fits out budget h =
      rw
        (
          read_limited-fits (budget + 1) (bz.yields b.compressed) v.3 (omega arith),
          decompress_block_bounded,
        )
        (rw (le→ltb budget (length (bz.yields b.compressed).0) h))

  bounded-over :
      (out : Bytes) (budget : ℕ)
      → budget < length (bz.yields b.compressed).0
      → decompress_block_bounded bz b.compressed out budget
        ≡ err (decompressed_too_large max_decompressed_chunk_bytes)
  unfolding decompress_block_bounded
  bounded-over out budget h =
      rw
        (
          read_limited-over (budget + 1) (bz.yields b.compressed) (omega arith),
          decompress_block_bounded,
        )
        (rw (
          lt→ltb budget (length (take (budget + 1) (bz.yields b.compressed).0))
            (omega (arith, length-take (budget + 1) (bz.yields b.compressed).0))))

  -- At the start of a block, the round is the block's.
  block_at-block :
      (s : Bool) (before after : Bytes)
      → block_at (before ++ block_bytes b ++ after) s (length before)
        ≡ block b.compressed (length before + length (block_bytes b))
  block_at-block s before after =
      let raw = before ++ block_bytes b ++ after in
      let word_read : read_be4 raw (length before) ≡ b.word =
        ap (slice raw (length before)) (sym v.0)
        ∙ ap (λ l. slice l (length before) (length b.word))
            (regroup_block before b.word b.compressed after)
        ∙ slice-append before b.word (b.compressed ++ after) in
      let size : length raw ≡ length before + 4 + length b.compressed + length after = omega (
        arith,
        length-append (before ++ block_bytes b) after,
        length-append before (block_bytes b),
        length-append b.word b.compressed,
        v.0,
      ) in
      let got : get_slice? raw (length before + 4) (length b.compressed) ≡ some b.compressed =
        get_slice?-eq_some raw (length before + 4) (length b.compressed) (omega (arith, size))
        ∙ ap some (
            ap₂ (λ l n. slice l n (length b.compressed))
              (regroup_body before b.word b.compressed after)
              (omega (arith, length-append before b.word, v.0))
            ∙ slice-append (before ++ b.word) b.compressed after) in
      block_at-fits raw s (length before) (omega (arith, size))
      ∙ ap (block_behind raw s (length before + 4)) (ap from_be_bytes word_read ∙ v.1)
      ∙ block_behind-block raw s (length before + 4) (length b.compressed) b.compressed v.2 got
      ∙ ap (block b.compressed) (omega (arith, length-append b.word b.compressed, v.0))

block_at-end :
    (s : Bool) (before tail : Bytes)
    → Ends s tail
    → block_at (before ++ tail) s (length before) ≡ finished
unfolding block_at block_behind
block_at-end s before tail (inl short) = rw (
    lt→leb (length before + 4) (length (before ++ tail)) (omega (arith, length-append before tail)))
block_at-end s before tail (inr (sentinel, room, word)) =
    let raw = before ++ tail in
    let regrouped : raw ≡ before ++ tail ++ [] = sym (append-nil raw) in
    let word_read : from_be_bytes (read_be4 raw (length before)) ≡ start_sentinel =
      ap from_be_bytes (
        ap₂ (λ l n. slice l n 4) regrouped (omega arith)
        ∙ slice-append_inside before tail [] 0 4 room)
      ∙ word in
    block_at-fits raw s (length before) (omega (arith, length-append before tail))
    ∙ ap (block_behind raw s (length before + 4)) word_read
    ∙ ap (λ t. block_behind raw t (length before + 4) start_sentinel) sentinel

regroup_blocks :
    (before b rest tail : Bytes) → before ++ ((b ++ rest) ++ tail) ≡ before ++ b ++ (rest ++ tail)
regroup_blocks before b rest tail = simp append_assoc

within-nil : (budget : ℕ) (out : Bytes) → within budget out [] ≡ ok (out ++ [])
within-nil budget out = rw (le→leb 0 budget (omega arith))

within-cons :
    (budget : ℕ) (out first rest : Bytes)
    → length first ≤ budget
    → within (budget - length first) (out ++ first) rest ≡ within budget out (first ++ rest)
within-cons budget out first rest h = elim (dec_le (length rest) (budget - length first)) [
  | yes fits ↦ rw (le→leb (length rest) (budget - length first) fits) (
      rw (le→leb (length (first ++ rest)) budget (omega (arith, length-append first rest)))
        (ap (λ l. ok l) (append_assoc out first rest)))
  | no over ↦
      rw (lt→leb (length rest) (budget - length first) (omega arith))
        (rw (lt→leb (length (first ++ rest)) budget (omega (arith, length-append first rest))) refl)
]

within-over :
    (budget : ℕ) (out first rest : Bytes)
    → budget < length first
    → within budget out (first ++ rest) ≡ err (decompressed_too_large max_decompressed_chunk_bytes)
within-over budget out first rest h =
    rw (lt→leb (length (first ++ rest)) budget (omega (arith, length-append first rest)))

module _ (bz : BzDecoder) (s : Bool) (tail : Bytes) (ends : Ends s tail) where
  walk_blocks-blocks :
      (bs : List Block) (fuel : ℕ) (before raw : Bytes) (offset : ℕ) (out : Bytes) (budget : ℕ)
      → AllBlocks bz bs
      → raw ≡ before ++ (blocks_bytes bs ++ tail)
      → offset ≡ length before
      → length (blocks_bytes bs) < fuel
      → walk_blocks bz raw s fuel offset out budget ≡ some (within budget out (inflated bz bs))
  unfolding walk_blocks after_block
  walk_blocks-blocks bs zero before raw offset out budget v e o h = absurd (omega arith)
  walk_blocks-blocks [] (suc fuel) before raw offset out budget v e o h =
      ap (λ found. after_block bz (walk_blocks bz raw s fuel) found out budget)
        (ap₂ (λ l n. block_at l s n) e o ∙ block_at-end s before tail ends)
      ∙ ap (λ l. some (ok l)) (sym (append-nil out))
      ∙ ap some (sym (within-nil budget out))
  walk_blocks-blocks (b ∷ bs) (suc fuel) before raw offset out budget v e o h =
      let first = (bz.yields b.compressed).0 in
      let next = length before + length (block_bytes b) in
      let regrouped = e ∙ regroup_blocks before (block_bytes b) (blocks_bytes bs) tail in
      ap (λ found. after_block bz (walk_blocks bz raw s fuel) found out budget)
        (ap₂ (λ l n. block_at l s n) regrouped o
          ∙ block_at-block bz b v.0 s before (blocks_bytes bs ++ tail))
      ∙ (elim (dec_le (length first) budget) [
        | yes fits ↦
            rw (bounded-fits bz b v.0 out budget fits, after_block)
              (walk_blocks-blocks bs fuel (before ++ block_bytes b) raw next (out ++ first)
                  (budget - length first) v.1 regrouped
                  (omega (arith, length-append before (block_bytes b)))
                  (omega (
                    arith,
                    v.0.0,
                    length-append b.word b.compressed,
                    length-append (block_bytes b) (blocks_bytes bs),
                  ))
                ∙ ap some (within-cons budget out first (inflated bz bs) fits))
        | no over ↦
            rw (bounded-over bz b v.0 out budget (omega arith), after_block)
              (ap some (sym (within-over budget out first (inflated bz bs) (omega arith))))
      ])

-- Blocks that the decoder reads to their ends, and behind them less than a length word or the
-- sentinel of a start chunk: the result is their outputs in order if these fit the bound together,
-- and the error of the bound if they do not.
pub decompress_blocks-blocks :
    (bz : BzDecoder) (s : Bool) (bs : List Block) (tail : Bytes)
    → AllBlocks bz bs
    → Ends s tail
    → decompress_blocks bz (blocks_bytes bs ++ tail) s
      ≡ some (within max_decompressed_chunk_bytes [] (inflated bz bs))
unfolding decompress_blocks
decompress_blocks-blocks bz s bs tail v ends =
    walk_blocks-blocks bz s tail ends bs (length (blocks_bytes bs ++ tail) + 1) []
      (blocks_bytes bs ++ tail) 0 [] max_decompressed_chunk_bytes v refl refl
      (omega (arith, length-append (blocks_bytes bs) tail))
