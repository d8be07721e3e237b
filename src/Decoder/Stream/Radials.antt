-- ===== src/Decoder/Stream/Radials.antt =====
-- The radial parser over a stream of segments.
use radar_workstation.Common.{
  ℕ, ◌<◌, ◌≡◌, refl, ap, ◌∙◌, some, Result, ok, err, and_then, Bytes, List, [], ◌∷◌, ◌++◌,
  append_assoc, append-nil, length, arith, sym, Result-cases, inl, inr, ◌≢◌,
}
use radar_workstation.Decoder.Cursor.{DecodeError}
use radar_workstation.Decoder.Cursor.Reads.{u8_at}
use radar_workstation.Decoder.Float32.{FloatOps}
use radar_workstation.Decoder.Radial.{Radial, parse_message31}
use radar_workstation.Decoder.Stream.{visit_radial, parse_radial_stream}
use radar_workstation.Decoder.Stream.Segments.{
  Segment, filler, radial, message, AllSegments, stream_bytes, visit_all, for_each_message-segments,
}

-- The Message 31 records of a stream.
abbrev pub radial_records : List Segment → List Bytes
radial_records [] = []
radial_records (filler b ∷ segs) = radial_records segs
radial_records (radial r padding ∷ segs) = r ∷ radial_records segs
radial_records (message b ∷ segs) = radial_records segs

-- Each record decoded on its own; the first error is the result.
abbrev pub decode_all : FloatOps → List Bytes → Result DecodeError (List Radial)
decode_all f [] = ok []
decode_all f (r ∷ rs) =
    and_then (parse_message31 f r) (λ x. and_then (decode_all f rs) (λ xs. ok (x ∷ xs)))

abbrev onto : List Radial → Result DecodeError (List Radial) → Result DecodeError (List Radial)
onto acc r = and_then r (λ xs. ok (acc ++ xs))

visit_radial-other :
    (f : FloatOps) (t : ℕ) (b : Bytes) (acc : List Radial)
    → t ≢ 31
    → visit_radial f t b acc ≡ ok acc
unfolding visit_radial
visit_radial-other f t b acc ne = ground arith

visit_radial-radial :
    (f : FloatOps) (b : Bytes) (acc : List Radial)
    → visit_radial f 31 b acc ≡ and_then (parse_message31 f b) (λ x. ok (acc ++ x ∷ []))
unfolding visit_radial
visit_radial-radial f b acc = refl

onto-cons :
    (acc : List Radial) (x : Radial) (r : Result DecodeError (List Radial))
    → onto (acc ++ x ∷ []) r ≡ onto acc (and_then r (λ xs. ok (x ∷ xs)))
onto-cons acc x (ok xs) = ap (λ l. ok l) (append_assoc acc (x ∷ []) xs)
onto-cons acc x (err e) = refl

visit_all-radials :
    (f : FloatOps) (segs : List Segment) (acc : List Radial)
    → AllSegments segs
    → visit_all (visit_radial f) segs acc ≡ onto acc (decode_all f (radial_records segs))
visit_all-radials f [] acc v = ap (λ l. ok l) (sym (append-nil acc))
visit_all-radials f (filler b ∷ segs) acc v = visit_all-radials f segs acc v.1
visit_all-radials f (message b ∷ segs) acc v =
    rw (visit_radial-other f (u8_at b 15) b acc v.0.2) (visit_all-radials f segs acc v.1)
visit_all-radials f (radial r padding ∷ segs) acc v = elim (Result-cases (parse_message31 f r)) [
  | inl (x, went) ↦ rw (visit_radial-radial f r acc) (
      rw went (
        visit_all-radials f segs (acc ++ x ∷ []) v.1
        ∙ onto-cons acc x (decode_all f (radial_records segs))))
  | inr (e, failed) ↦ rw (visit_radial-radial f r acc) (rw failed)
]

onto-nil : (r : Result DecodeError (List Radial)) → onto [] r ≡ r
onto-nil (ok xs) = refl
onto-nil (err e) = refl

-- Over a stream of well-formed segments, with fewer bytes than a header behind them, the radials
-- are the Message 31 records, decoded one by one in stream order; every other message and all
-- padding is without effect, and the first record that does not decode is the result.
pub parse_radial_stream-segments :
    (f : FloatOps) (segs : List Segment) (tail : Bytes)
    → AllSegments segs
    → length tail < 28
    → parse_radial_stream f (stream_bytes segs ++ tail) ≡ some (decode_all f (radial_records segs))
unfolding parse_radial_stream
parse_radial_stream-segments f segs tail v short =
    for_each_message-segments (visit_radial f) segs tail [] v short
    ∙ ap some (visit_all-radials f segs [] v ∙ onto-nil (decode_all f (radial_records segs)))
