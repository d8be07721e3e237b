-- ===== src/Decoder/Vcp.antt =====
-- crates/nexrad-decoder/src/parse/message5.rs and types/vcp.rs: the Volume Coverage Pattern.
pub mod Layout
use radar_workstation.Common.{
  ℕ, zero, suc, ◌+◌, Result, ok, err, and_then, Bytes, length, drop, ltb, if◌then◌else◌, List, [],
  ◌∷◌, ◌++◌,
}
use radar_workstation.Decoder.Cursor.{DecodeError, truncated, F32, Parser, pure, ◌>>=◌, new}
use radar_workstation.Decoder.Float32.{FloatOps, f32_360, f32_65536}
use radar_workstation.Decoder.Headers.{VcpHeader, read_vcp_header, CutWords, read_cut}

pub record VcpElevationCut : Type 0 where
  pub elevation_deg : F32
  pub channel_config : ℕ
  pub waveform : ℕ
  pub super_res : ℕ

pub record VcpDefinition : Type 0 where
  pub vcp_number : ℕ
  pub pattern_type : ℕ
  pub elevations : List VcpElevationCut

abbrev pub body_offset : ℕ
body_offset = 28

abbrev pub vcp_header_size : ℕ
vcp_header_size = 22

-- `el_angle_raw as f32 * 360.0 / 65536.0`
unfoldable pub make_cut : FloatOps → CutWords → VcpElevationCut
make_cut f w = record {
  elevation_deg = f.div (f.mul (f.of_int w.el_angle_raw) f32_360) f32_65536;
  channel_config = w.channel_config;
  waveform = w.waveform;
  super_res = w.super_res;
}

-- The loop over the elevation cuts.
unfoldable pub read_cuts : FloatOps → ℕ → List VcpElevationCut → Parser (List VcpElevationCut)
read_cuts f zero elevations = pure elevations
read_cuts f (suc n) elevations = do w ← read_cut; read_cuts f n (elevations ++ make_cut f w ∷ [])

unfoldable pub read_vcp : FloatOps → Parser VcpDefinition
read_vcp f = do
  h ← read_vcp_header
  elevations ← read_cuts f h.num_el_cuts []
  pure
      (record { vcp_number = h.vcp_number; pattern_type = h.pattern_type; elevations = elevations })

unfoldable pub parse_vcp : FloatOps → Bytes → Result DecodeError VcpDefinition
unfolding read_vcp
parse_vcp f bytes =
    if ltb (length bytes) (body_offset + vcp_header_size)
    then err (truncated "msg5 header")
    else and_then (read_vcp f (new (drop body_offset bytes))) (λ r. ok r.0)
