-- ===== src/Decoder/Headers.antt =====
-- The runs of fixed-size reads in crates/nexrad-decoder/src/parse: the headers of Message 31
-- (radial.rs), of a product block (product.rs), of the RVOL and RRAD blocks (blocks.rs) and of
-- Message 5 with its elevation cuts (message5.rs), and the structs that they fill.
pub mod Layout
use radar_workstation.Common.{ℕ, ◌-◌, Bytes}
use radar_workstation.Common.Int.{ℤ}
use radar_workstation.Decoder.Cursor.{
  F32, Parser, pure, ◌>>=◌, ◌>>◌, read_u8, read_u16_be, read_i16_be, read_u32_be, read_f32_be,
  read_array4, read_bytes,
}

-- types/site_parameters.rs
pub record SiteParameters : Type 0 where
  pub latitude : F32
  pub longitude : F32
  pub site_amsl_m : ℤ
  pub feedhorn_agl_m : ℕ
  pub calib_dbz : F32
  pub txpower_h : F32
  pub txpower_v : F32
  pub sys_zdr : F32
  pub phidp0 : F32
  pub vcp_number : ℕ
  pub processing_status : ℕ

-- The RVOL block behind its id.
unfoldable pub read_rvol : Parser SiteParameters
read_rvol = do
  read_u16_be
  read_u8
  read_u8
  latitude ← read_f32_be
  longitude ← read_f32_be
  site_amsl_m ← read_i16_be
  feedhorn_agl_m ← read_u16_be
  calib_dbz ← read_f32_be
  txpower_h ← read_f32_be
  txpower_v ← read_f32_be
  sys_zdr ← read_f32_be
  phidp0 ← read_f32_be
  vcp_number ← read_u16_be
  processing_status ← read_u16_be
  pure (record {
    latitude = latitude;
    longitude = longitude;
    site_amsl_m = site_amsl_m;
    feedhorn_agl_m = feedhorn_agl_m;
    calib_dbz = calib_dbz;
    txpower_h = txpower_h;
    txpower_v = txpower_v;
    sys_zdr = sys_zdr;
    phidp0 = phidp0;
    vcp_number = vcp_number;
    processing_status = processing_status;
  })

-- The raw words of the RRAD block that are kept.
pub record RradWords : Type 0 where
  pub unamb_range_raw : ℕ
  pub nyquist_raw : ℕ

-- The RRAD block behind its id.
unfoldable pub read_rrad : Parser RradWords
read_rrad = do
  read_u16_be
  unamb_range_raw ← read_u16_be
  read_f32_be
  read_f32_be
  nyquist_raw ← read_u16_be
  pure (record { unamb_range_raw = unamb_range_raw; nyquist_raw = nyquist_raw })

pub record ProductHeader : Type 0 where
  pub gate_count : ℕ
  pub first_gate_m : ℕ
  pub gate_width_m : ℕ
  pub word_size : ℕ
  pub scale : F32
  pub offset : F32

-- A product block behind its id, up to the gates.
unfoldable pub read_product_header : Parser ProductHeader
read_product_header = do
  read_u16_be
  read_u16_be
  gate_count ← read_u16_be
  first_gate_m ← read_u16_be
  gate_width_m ← read_u16_be
  read_u16_be
  read_u16_be
  read_u8
  word_size ← read_u8
  scale ← read_f32_be
  offset ← read_f32_be
  pure (record {
    gate_count = gate_count;
    first_gate_m = first_gate_m;
    gate_width_m = gate_width_m;
    word_size = word_size;
    scale = scale;
    offset = offset;
  })

pub record RadialHeader : Type 0 where
  pub site_id : Bytes
  pub scan_time_ms : ℕ
  pub julian_date : ℕ
  pub az_num : ℕ
  pub az_angle : F32
  pub azimuth_spacing_code : ℕ
  pub radial_status_code : ℕ
  pub el_num : ℕ
  pub el_angle : F32
  pub num_data_blks : ℕ
  pub vol_ptr : ℕ
  pub rad_ptr : ℕ

-- The fixed header of Message 31 and the first three block pointers.
unfoldable pub read_radial_header : Parser RadialHeader
read_radial_header = do
  site_id ← read_array4
  scan_time_ms ← read_u32_be
  julian_date ← read_u16_be
  az_num ← read_u16_be
  az_angle ← read_f32_be
  read_u8
  read_u8
  read_u16_be
  azimuth_spacing_code ← read_u8
  radial_status_code ← read_u8
  el_num ← read_u8
  read_u8
  el_angle ← read_f32_be
  read_u8
  read_u8
  num_data_blks ← read_u16_be
  vol_ptr ← read_u32_be
  read_u32_be
  rad_ptr ← read_u32_be
  pure (record {
    site_id = site_id;
    scan_time_ms = scan_time_ms;
    julian_date = julian_date;
    az_num = az_num;
    az_angle = az_angle;
    azimuth_spacing_code = azimuth_spacing_code;
    radial_status_code = radial_status_code;
    el_num = el_num;
    el_angle = el_angle;
    num_data_blks = num_data_blks;
    vol_ptr = vol_ptr;
    rad_ptr = rad_ptr;
  })

pub record VcpHeader : Type 0 where
  pub pattern_type : ℕ
  pub vcp_number : ℕ
  pub num_el_cuts : ℕ

-- The header of Message 5.
unfoldable pub read_vcp_header : Parser VcpHeader
read_vcp_header = do
  read_u16_be
  pattern_type ← read_u16_be
  vcp_number ← read_u16_be
  num_el_cuts ← read_u16_be
  read_u8
  read_u8
  read_u8
  read_u8
  read_bytes 4
  read_u16_be
  read_u16_be
  read_bytes 2
  pure (record { pattern_type = pattern_type; vcp_number = vcp_number; num_el_cuts = num_el_cuts })

abbrev pub el_cut_size : ℕ
el_cut_size = 46

abbrev pub el_cut_decoded_size : ℕ
el_cut_decoded_size = 5

pub record CutWords : Type 0 where
  pub el_angle_raw : ℕ
  pub channel_config : ℕ
  pub waveform : ℕ
  pub super_res : ℕ

-- One elevation cut of Message 5.
unfoldable pub read_cut : Parser CutWords
read_cut = do
  el_angle_raw ← read_u16_be
  channel_config ← read_u8
  waveform ← read_u8
  super_res ← read_u8
  read_bytes (el_cut_size - el_cut_decoded_size)
  pure (record {
    el_angle_raw = el_angle_raw;
    channel_config = channel_config;
    waveform = waveform;
    super_res = super_res;
  })
