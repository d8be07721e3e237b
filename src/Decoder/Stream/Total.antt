-- ===== src/Decoder/Stream/Total.antt =====
-- The walk ends: the fuel that `for_each_message` gives is enough for every stream and callback.
use radar_workstation.Common.{
  ℕ, zero, suc, ◌+◌, ◌≤◌, ◌<◌, ◌≡◌, refl, Option, some, Result, ok, err, Bytes, List, length, arith,
  Result-cases, inl, inr,
}
use radar_workstation.Decoder.Cursor.{DecodeError}
use radar_workstation.Decoder.Float32.{FloatOps}
use radar_workstation.Decoder.Radial.{Radial}
use radar_workstation.Decoder.Stream.{
  Frame, finished, bad, skip, deliver, frame_at, Visitor, after_frame, walk, for_each_message,
  parse_radial_stream, parse_metadata_stream, VolumeMetadata,
}
use radar_workstation.Decoder.Stream.Frames.{Proceeds, frame_at-Proceeds}

module _ {S : Type 0} (f : Visitor S) (bytes : Bytes) where
  after_frame_total :
      (rest : ℕ → S → Option (Result DecodeError S)) (offset : ℕ) (frame : Frame) (s : S)
      → Proceeds bytes offset frame
      → ((next : ℕ) (s' : S)
          → offset + 28 ≤ length bytes
          → offset < next
          → (r : Result DecodeError S) × (rest next s' ≡ some r))
      → (r : Result DecodeError S) × (after_frame rest f frame s ≡ some r)
  unfolding after_frame
  after_frame_total rest offset finished s p ih = (ok s, refl)
  after_frame_total rest offset (bad e) s p ih = (err e, refl)
  after_frame_total rest offset (skip next) s p ih = ih next s p.0 p.1
  after_frame_total rest offset (deliver t r next) s p ih = elim (Result-cases (f t r s)) [
    | inl (s', went) ↦ let (q, e) = ih next s' p.0 p.1 in (q, rw (went, after_frame) e)
    | inr (e, failed) ↦ (err e, rw (failed, after_frame))
  ]

  walk_total :
      (fuel offset : ℕ) (s : S)
      → 0 < fuel
      → length bytes < offset + fuel
      → (r : Result DecodeError S) × (walk f bytes fuel offset s ≡ some r)
  unfolding walk
  walk_total zero offset s pos h = absurd (omega arith)
  walk_total (suc fuel) offset s pos h =
      after_frame_total (walk f bytes fuel) offset (frame_at bytes offset) s
        (frame_at-Proceeds bytes offset)
        (λ next s' fits forward. walk_total fuel next s' (omega arith) (omega arith))

  -- The walk over any bytes, with any callback, returns: the state, or the error that stopped it.
  pub for_each_message_total :
      (s : S) → (r : Result DecodeError S) × (for_each_message f bytes s ≡ some r)
  unfolding for_each_message
  for_each_message_total s = walk_total (length bytes + 1) 0 s (omega arith) (omega arith)

-- Both stream parsers return on every input.
pub parse_streams_total :
    (f : FloatOps) (bytes : Bytes)
    → ((r : Result DecodeError (List Radial)) × (parse_radial_stream f bytes ≡ some r))
      × ((r : Result DecodeError VolumeMetadata) × (parse_metadata_stream f bytes ≡ some r))
unfolding parse_radial_stream parse_metadata_stream
parse_streams_total f bytes = (for_each_message_total _ bytes _, for_each_message_total _ bytes _)
