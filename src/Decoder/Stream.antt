-- ===== src/Decoder/Stream.antt =====
-- crates/nexrad-decoder/src/parse/mod.rs: the walk over the message stream of a chunk, and the two
-- parsers that stand on it.
pub mod Frames
pub mod Total
pub mod Segments
pub mod Radials
use radar_workstation.Common.{
  ℕ, zero, suc, ◌+◌, ◌-◌, ◌*◌, ◌/◌, min, Option, none, some, Result, ok, err, and_then, Bytes,
  length, get_slice?, slice, leb, ◌==◌, if◌then◌else◌, List, [], ◌∷◌, ◌++◌,
}
use radar_workstation.Decoder.Cursor.{
  DecodeError, truncated, Cursor, Parser, pure, ◌>>=◌, ◌>>◌, at, read_u8, read_u16_be,
}
use radar_workstation.Decoder.Float32.{FloatOps}
use radar_workstation.Decoder.Radial.{Radial, parse_message31}
use radar_workstation.Decoder.Vcp.{VcpDefinition, parse_vcp}

abbrev pub ctm_header_size : ℕ
ctm_header_size = 12

abbrev pub msg_header_size : ℕ
msg_header_size = 16

abbrev pub legacy_msg_size : ℕ
legacy_msg_size = 2432

-- The size in halfwords and the type of the message at the cursor; the channel is passed over.
pub record FrameHeader : Type 0 where
  pub size_hw : ℕ
  pub msg_type : ℕ

unfoldable pub read_frame_header : Parser FrameHeader
read_frame_header = do
  size_hw ← read_u16_be
  read_u8
  msg_type ← read_u8
  pure (record { size_hw = size_hw; msg_type = msg_type })

-- What one round of the loop does at an offset.
pub data Frame : Type 0 where
  -- The loop's condition fails.
  finished : Frame
  -- `?` or `ok_or` returns.
  bad : DecodeError → Frame
  -- `continue` with the next offset.
  skip : ℕ → Frame
  -- The callback gets the message's type and record; the next offset.
  deliver : ℕ → Bytes → ℕ → Frame

-- `(n + 3) & !3`
abbrev pub align4 : ℕ → ℕ
align4 n = (n + 3) / 4 * 4

unfoldable pub frame_of : Bytes → ℕ → FrameHeader → Frame
frame_of bytes offset h =
    if h.size_hw == 0
    then skip (offset + legacy_msg_size)
    else let msg_size_bytes = h.size_hw * 2 in
      if h.msg_type == 31
      then elim (get_slice? bytes offset (ctm_header_size + msg_size_bytes)) [
        | none ↦ bad (truncated "msg31 record slice")
        | some record_bytes ↦
            deliver h.msg_type record_bytes (offset + align4 (ctm_header_size + msg_size_bytes))
      ]
      else let record_end = min (offset + legacy_msg_size) (length bytes) in
        deliver h.msg_type (slice bytes offset (record_end - offset)) (offset + legacy_msg_size)

unfoldable pub frame_at : Bytes → ℕ → Frame
unfolding frame_of
frame_at bytes offset =
    if leb (offset + ctm_header_size + msg_header_size) (length bytes)
    then elim (and_then (at bytes (offset + ctm_header_size)) read_frame_header) [
      | ok (h, _) ↦ frame_of bytes offset h
      | err e ↦ bad e
    ]
    else finished

-- The callback, with what it captures by `&mut` as a state.
abbrev pub Visitor : Type 0 → Type 0
Visitor S = ℕ → Bytes → S → Result DecodeError S

module _ {S : Type 0} where
  -- The rest of a round, `rest` being the loop from the next offset on.
  unfoldable pub after_frame :
      (ℕ → S → Option (Result DecodeError S))
      → Visitor S
      → Frame
      → S
      → Option (Result DecodeError S)
  after_frame rest f finished s = some (ok s)
  after_frame rest f (bad e) s = some (err e)
  after_frame rest f (skip offset) s = rest offset s
  after_frame rest f (deliver msg_type bytes offset) s = elim (f msg_type bytes s) [
    | ok s' ↦ rest offset s'
    | err e ↦ some (err e)
  ]

  -- The loop on fuel; `none` means that the fuel ran out.
  unfoldable pub walk : Visitor S → Bytes → ℕ → ℕ → S → Option (Result DecodeError S)
  unfolding after_frame
  walk f bytes zero offset s = none
  walk f bytes (suc fuel) offset s = after_frame (walk f bytes fuel) f (frame_at bytes offset) s

  -- The fuel: a round for each byte, and one for the test at the end.
  unfoldable pub for_each_message : Visitor S → Bytes → S → Option (Result DecodeError S)
  for_each_message f bytes s = walk f bytes (length bytes + 1) 0 s

unfoldable pub visit_radial : FloatOps → Visitor (List Radial)
visit_radial f msg_type bytes radials =
    if msg_type == 31
    then and_then (parse_message31 f bytes) (λ r. ok (radials ++ r ∷ []))
    else ok radials

unfoldable pub parse_radial_stream : FloatOps → Bytes → Option (Result DecodeError (List Radial))
parse_radial_stream f bytes = for_each_message (visit_radial f) bytes []

pub record VolumeMetadata : Type 0 where
  pub vcp : Option VcpDefinition

unfoldable pub visit_metadata : FloatOps → Visitor VolumeMetadata
visit_metadata f msg_type bytes metadata =
    if msg_type == 5
    then and_then (parse_vcp f bytes) (λ v. ok (record { vcp = some v }))
    else ok metadata

unfoldable pub parse_metadata_stream : FloatOps → Bytes → Option (Result DecodeError VolumeMetadata)
parse_metadata_stream f bytes = for_each_message (visit_metadata f) bytes (record { vcp = none })
