-- ===== src/Decoder/Stream/Segments.antt =====
-- A stream as a list of segments, and what the walk delivers of it.
use radar_workstation.Common.{
  ℕ, zero, suc, ◌+◌, ◌-◌, ◌*◌, ◌≤◌, ◌<◌, ◌≡◌, ◌≢◌, refl, ap, ap₂, sym, ◌∙◌, min, slice,
  slice-append, get_slice?, get_slice?-eq_some, Option, some, Result, ok, err, and_then, Bytes,
  List, [], ◌∷◌, ◌++◌, length, length-append, arith, Result-cases, inl, inr, append_assoc,
  slice-append_inside, get_or-append_inside, le→leb, lt→leb,
}
use radar_workstation.Decoder.Cursor.{DecodeError, from_be_bytes}
use radar_workstation.Decoder.Cursor.Reads.{be_at, u8_at}
use radar_workstation.Decoder.Stream.{
  FrameHeader, Frame, finished, skip, deliver, frame_at, frame_of, Visitor, after_frame, walk,
  for_each_message, align4, legacy_msg_size,
}
use radar_workstation.Decoder.Stream.Frames.{frame_at_lem, frame_header_at}

-- What a sender puts one after the other: padding slots of the legacy size with a size field of 0,
-- Message 31 records padded to four bytes, and other messages in slots of the legacy size.
pub data Segment : Type 0 where
  filler : Bytes → Segment
  radial : Bytes → Bytes → Segment
  message : Bytes → Segment

abbrev pub segment_bytes : Segment → Bytes
segment_bytes (filler b) = b
segment_bytes (radial r padding) = r ++ padding
segment_bytes (message b) = b

abbrev pub IsSegment : Segment → Type 0
IsSegment (filler b) = (length b ≡ legacy_msg_size) × (be_at 2 b 12 ≡ 0)
IsSegment (radial r padding) =
    (28 ≤ length r)
    × (length r ≡ 12 + be_at 2 r 12 * 2)
    × (u8_at r 15 ≡ 31)
    × (length r + length padding ≡ align4 (length r))
IsSegment (message b) = (length b ≡ legacy_msg_size) × (be_at 2 b 12 ≢ 0) × (u8_at b 15 ≢ 31)

-- What the callback gets of a segment.
abbrev pub round : Segment → ℕ → Frame
round (filler b) next = skip next
round (radial r padding) next = deliver 31 r next
round (message b) next = deliver (u8_at b 15) b next

abbrev frame_header_of : Bytes → FrameHeader
frame_header_of b = record { size_hw = be_at 2 b 12; msg_type = u8_at b 15 }

module _ (before b after : Bytes) (big : 28 ≤ length b) where
  header-inside : frame_header_at (before ++ b ++ after) (length before) ≡ frame_header_of b
  header-inside = λ i. record {
    size_hw = from_be_bytes (slice-append_inside before b after 12 2 (omega arith) i);
    msg_type = get_or-append_inside before b after 15 0 (omega arith) i;
  }

  frame_at-inside :
      frame_at (before ++ b ++ after) (length before)
      ≡ frame_of (before ++ b ++ after) (length before) (frame_header_of b)
  frame_at-inside = rw frame_at_lem (
      rw
        (le→leb (length before + 28) (length (before ++ b ++ after))
          (omega (arith, length-append (before ++ b) after, length-append before b)))
        (rw header-inside))

  length-around : length (before ++ b ++ after) ≡ length before + length b + length after
  length-around = omega (arith, length-append (before ++ b) after, length-append before b)

  frame_of_filler :
      be_at 2 b 12 ≡ 0
      → frame_of (before ++ b ++ after) (length before) (frame_header_of b)
        ≡ skip (length before + legacy_msg_size)
  unfolding frame_of
  frame_of_filler empty = ground arith

  frame_of_radial :
      length b ≡ 12 + be_at 2 b 12 * 2
      → u8_at b 15 ≡ 31
      → frame_of (before ++ b ++ after) (length before) (frame_header_of b)
        ≡ deliver 31 b (length before + align4 (length b))
  unfolding frame_of
  frame_of_radial size type =
      let got : get_slice? (before ++ b ++ after) (length before) (12 + be_at 2 b 12 * 2) ≡ some b =
        ap (get_slice? (before ++ b ++ after) (length before)) (sym size)
        ∙ get_slice?-eq_some (before ++ b ++ after) (length before) (length b)
            (omega (arith, length-around))
        ∙ ap some (slice-append before b after) in
      ground (arith, got)

  frame_of_message :
      length b ≡ legacy_msg_size
      → be_at 2 b 12 ≢ 0
      → u8_at b 15 ≢ 31
      → frame_of (before ++ b ++ after) (length before) (frame_header_of b)
        ≡ deliver (u8_at b 15) b (length before + legacy_msg_size)
  unfolding frame_of
  frame_of_message size nonzero other =
      let record_end = min (length before + legacy_msg_size) (length (before ++ b ++ after)) in
      let sliced : slice (before ++ b ++ after) (length before) (record_end - length before) ≡ b =
        ap (slice (before ++ b ++ after) (length before)) (omega (arith, length-around))
        ∙ slice-append before b after in
      ground (arith, sliced)

regroup :
    (before r padding after : Bytes)
    → before ++ (r ++ padding) ++ after ≡ before ++ r ++ (padding ++ after)
regroup before r padding after = simp append_assoc

-- At the start of a segment, the round is the segment's.
frame_at-segment :
    (before : Bytes) (seg : Segment) (after : Bytes)
    → IsSegment seg
    → frame_at (before ++ segment_bytes seg ++ after) (length before)
      ≡ round seg (length before + length (segment_bytes seg))
frame_at-segment before (filler b) after v =
    frame_at-inside before b after (omega arith)
    ∙ frame_of_filler before b after (omega arith) v.1
    ∙ ap (λ n. skip (length before + n)) (sym v.0)
frame_at-segment before (radial r padding) after v =
    ap (λ bytes. frame_at bytes (length before)) (regroup before r padding after)
    ∙ frame_at-inside before r (padding ++ after) v.0
    ∙ frame_of_radial before r (padding ++ after) v.0 v.1 v.2
    ∙ ap (λ n. deliver 31 r (length before + n)) (omega (arith, length-append r padding))
frame_at-segment before (message b) after v =
    frame_at-inside before b after (omega arith)
    ∙ frame_of_message before b after (omega arith) v.0 v.1 v.2
    ∙ ap (λ n. deliver (u8_at b 15) b (length before + n)) (sym v.0)

abbrev pub stream_bytes : List Segment → Bytes
stream_bytes [] = []
stream_bytes (seg ∷ segs) = segment_bytes seg ++ stream_bytes segs

length-segment : (seg : Segment) → IsSegment seg → 28 ≤ length (segment_bytes seg)
length-segment (filler b) v = omega arith
length-segment (radial r padding) v = omega (arith, length-append r padding)
length-segment (message b) v = omega arith

regroup_stream :
    (before b rest tail : Bytes) → before ++ ((b ++ rest) ++ tail) ≡ before ++ b ++ (rest ++ tail)
regroup_stream before b rest tail = simp append_assoc

-- Where no header is left the walk is at its end.
frame_at-end :
    (before tail bytes : Bytes) (offset : ℕ)
    → bytes ≡ before ++ tail
    → offset ≡ length before
    → length tail < 28
    → frame_at bytes offset ≡ finished
frame_at-end before tail bytes offset e o short = rw frame_at_lem (
    rw
      (lt→leb (offset + 28) (length bytes) (omega (arith, ap length e, length-append before tail))))

abbrev pub AllSegments : List Segment → Type 0
AllSegments [] = Unit {0}
AllSegments (seg ∷ segs) = IsSegment seg × AllSegments segs

module _ {S : Type 0} (f : Visitor S) where
  -- One segment's effect on the state.
  abbrev pub visit : Segment → S → Result DecodeError S
  visit (filler b) s = ok s
  visit (radial r padding) s = f 31 r s
  visit (message b) s = f (u8_at b 15) b s

  -- The segments in order, up to the first error.
  abbrev pub visit_all : List Segment → S → Result DecodeError S
  visit_all [] s = ok s
  visit_all (seg ∷ segs) s = and_then (visit seg s) (visit_all segs)

  after-round :
      (rest : ℕ → S → Option (Result DecodeError S)) (seg : Segment) (next : ℕ) (s : S)
      → after_frame rest f (round seg next) s
        ≡ elim (visit seg s) [ ok s' ↦ rest next s' | err e ↦ some (err e) ]
  unfolding after_frame
  after-round rest (filler b) next s = refl
  after-round rest (radial r padding) next s = refl
  after-round rest (message b) next s = refl

  walk-segments :
      (segs : List Segment) (fuel : ℕ) (before tail bytes : Bytes) (offset : ℕ) (s : S)
      → AllSegments segs
      → bytes ≡ before ++ (stream_bytes segs ++ tail)
      → offset ≡ length before
      → length tail < 28
      → length (stream_bytes segs) < fuel
      → walk f bytes fuel offset s ≡ some (visit_all segs s)
  unfolding walk
  walk-segments segs zero before tail bytes offset s v e o short h = absurd (omega arith)
  walk-segments [] (suc fuel) before tail bytes offset s v e o short h =
      ap (λ frame. after_frame (walk f bytes fuel) f frame s)
        (frame_at-end before tail bytes offset e o short)
  walk-segments (seg ∷ segs) (suc fuel) before tail bytes offset s v e o short h =
      ap (λ frame. after_frame (walk f bytes fuel) f frame s)
        (ap₂ frame_at (e ∙ regroup_stream before (segment_bytes seg) (stream_bytes segs) tail) o
          ∙ frame_at-segment before seg (stream_bytes segs ++ tail) v.0)
      ∙ after-round (walk f bytes fuel) seg (length before + length (segment_bytes seg)) s
      ∙ (elim (Result-cases (visit seg s)) [
        | inl (s', went) ↦ rw went (
            walk-segments segs fuel (before ++ segment_bytes seg) tail bytes
              (length before + length (segment_bytes seg)) s' v.1
              (e ∙ regroup_stream before (segment_bytes seg) (stream_bytes segs) tail)
              (omega (arith, length-append before (segment_bytes seg))) short
              (omega (
                arith,
                length-segment seg v.0,
                length-append (segment_bytes seg) (stream_bytes segs),
              )))
        | inr (error, failed) ↦ rw failed
      ])

-- Over a stream of well-formed segments, with fewer bytes than a header behind them, the walk
-- hands the callback exactly the records of the segments, whole and in order, and skips padding.
pub for_each_message-segments :
    {S : Type 0} (f : Visitor S) (segs : List Segment) (tail : Bytes) (s : S)
    → AllSegments segs
    → length tail < 28
    → for_each_message f (stream_bytes segs ++ tail) s ≡ some (visit_all f segs s)
unfolding for_each_message
for_each_message-segments f segs tail s v short =
    walk-segments f segs (length (stream_bytes segs ++ tail) + 1) [] tail
      (stream_bytes segs ++ tail) 0 s v refl refl short
      (omega (arith, length-append (stream_bytes segs) tail))
