-- ===== src/Decoder/Headers/Layout.antt =====
-- Where the fields of each header lie: the byte offsets of the format document, behind the block
-- id for the blocks. Each run of reads takes exactly its size and finds each field at its offset.
use native.Mathlib.Nat.{add_assoc}
use radar_workstation.Common.{ℕ, ◌+◌, Bytes, slice}
use radar_workstation.Common.Int.{as_i16}
use radar_workstation.Decoder.Cursor.Reads.{
  Reads, Reads-bind, Reads-pure, Reads-read_u8, Reads-read_u16_be, Reads-read_i16_be,
  Reads-read_u32_be, Reads-read_f32_be, Reads-read_array4, Reads-read_bytes, Reads-of_eq, u8_at,
  be_at,
}
use radar_workstation.Decoder.Headers.{
  SiteParameters, read_rvol, ProductHeader, read_product_header, RradWords, read_rrad, RadialHeader,
  read_radial_header, VcpHeader, read_vcp_header, CutWords, read_cut,
}

abbrev pub rvol_at : Bytes → ℕ → SiteParameters
rvol_at bs p = record {
  latitude = be_at 4 bs (p + 4);
  longitude = be_at 4 bs (p + 8);
  site_amsl_m = as_i16 (be_at 2 bs (p + 12));
  feedhorn_agl_m = be_at 2 bs (p + 14);
  calib_dbz = be_at 4 bs (p + 16);
  txpower_h = be_at 4 bs (p + 20);
  txpower_v = be_at 4 bs (p + 24);
  sys_zdr = be_at 4 bs (p + 28);
  phidp0 = be_at 4 bs (p + 32);
  vcp_number = be_at 2 bs (p + 36);
  processing_status = be_at 2 bs (p + 38);
}

pub Reads-read_rvol : Reads 40 rvol_at read_rvol
unfolding read_rvol
Reads-read_rvol =
    Reads-of_eq
      (Reads-bind Reads-read_u16_be λ _. Reads-bind Reads-read_u8 λ _. Reads-bind Reads-read_u8 λ _.
        Reads-bind Reads-read_f32_be λ latitude. Reads-bind Reads-read_f32_be λ longitude.
          Reads-bind Reads-read_i16_be λ site_amsl_m. Reads-bind Reads-read_u16_be λ feedhorn_agl_m.
            Reads-bind Reads-read_f32_be λ calib_dbz. Reads-bind Reads-read_f32_be λ txpower_h.
              Reads-bind Reads-read_f32_be λ txpower_v. Reads-bind Reads-read_f32_be λ sys_zdr.
                Reads-bind Reads-read_f32_be λ phidp0. Reads-bind Reads-read_u16_be λ vcp_number.
                  Reads-bind Reads-read_u16_be λ processing_status. Reads-pure (record {
                    latitude = latitude;
                    longitude = longitude;
                    site_amsl_m = site_amsl_m;
                    feedhorn_agl_m = feedhorn_agl_m;
                    calib_dbz = calib_dbz;
                    txpower_h = txpower_h;
                    txpower_v = txpower_v;
                    sys_zdr = sys_zdr;
                    phidp0 = phidp0;
                    vcp_number = vcp_number;
                    processing_status = processing_status;
                  }))
      (λ bs p. simp add_assoc)

abbrev pub rrad_at : Bytes → ℕ → RradWords
rrad_at bs p = record { unamb_range_raw = be_at 2 bs (p + 2); nyquist_raw = be_at 2 bs (p + 12) }

pub Reads-read_rrad : Reads 14 rrad_at read_rrad
unfolding read_rrad
Reads-read_rrad =
    Reads-of_eq
      (Reads-bind Reads-read_u16_be λ _. Reads-bind Reads-read_u16_be λ unamb_range_raw.
        Reads-bind Reads-read_f32_be λ _. Reads-bind Reads-read_f32_be λ _.
          Reads-bind Reads-read_u16_be λ nyquist_raw.
            Reads-pure (record { unamb_range_raw = unamb_range_raw; nyquist_raw = nyquist_raw }))
      (λ bs p. simp add_assoc)

abbrev pub product_header_at : Bytes → ℕ → ProductHeader
product_header_at bs p = record {
  gate_count = be_at 2 bs (p + 4);
  first_gate_m = be_at 2 bs (p + 6);
  gate_width_m = be_at 2 bs (p + 8);
  word_size = u8_at bs (p + 15);
  scale = be_at 4 bs (p + 16);
  offset = be_at 4 bs (p + 20);
}

pub Reads-read_product_header : Reads 24 product_header_at read_product_header
unfolding read_product_header
Reads-read_product_header =
    Reads-of_eq
      (Reads-bind Reads-read_u16_be λ _. Reads-bind Reads-read_u16_be λ _.
        Reads-bind Reads-read_u16_be λ gate_count. Reads-bind Reads-read_u16_be λ first_gate_m.
          Reads-bind Reads-read_u16_be λ gate_width_m. Reads-bind Reads-read_u16_be λ _.
            Reads-bind Reads-read_u16_be λ _. Reads-bind Reads-read_u8 λ _.
              Reads-bind Reads-read_u8 λ word_size. Reads-bind Reads-read_f32_be λ scale.
                Reads-bind Reads-read_f32_be λ offset. Reads-pure (record {
                  gate_count = gate_count;
                  first_gate_m = first_gate_m;
                  gate_width_m = gate_width_m;
                  word_size = word_size;
                  scale = scale;
                  offset = offset;
                }))
      (λ bs p. simp add_assoc)

abbrev pub radial_header_at : Bytes → ℕ → RadialHeader
radial_header_at bs p = record {
  site_id = slice bs p 4;
  scan_time_ms = be_at 4 bs (p + 4);
  julian_date = be_at 2 bs (p + 8);
  az_num = be_at 2 bs (p + 10);
  az_angle = be_at 4 bs (p + 12);
  azimuth_spacing_code = u8_at bs (p + 20);
  radial_status_code = u8_at bs (p + 21);
  el_num = u8_at bs (p + 22);
  el_angle = be_at 4 bs (p + 24);
  num_data_blks = be_at 2 bs (p + 30);
  vol_ptr = be_at 4 bs (p + 32);
  rad_ptr = be_at 4 bs (p + 40);
}

pub Reads-read_radial_header : Reads 44 radial_header_at read_radial_header
unfolding read_radial_header
Reads-read_radial_header =
    Reads-of_eq
      (Reads-bind Reads-read_array4 λ site_id. Reads-bind Reads-read_u32_be λ scan_time_ms.
        Reads-bind Reads-read_u16_be λ julian_date. Reads-bind Reads-read_u16_be λ az_num.
          Reads-bind Reads-read_f32_be λ az_angle. Reads-bind Reads-read_u8 λ _.
            Reads-bind Reads-read_u8 λ _. Reads-bind Reads-read_u16_be λ _.
              Reads-bind Reads-read_u8 λ azimuth_spacing_code.
                Reads-bind Reads-read_u8 λ radial_status_code. Reads-bind Reads-read_u8 λ el_num.
                  Reads-bind Reads-read_u8 λ _. Reads-bind Reads-read_f32_be λ el_angle.
                    Reads-bind Reads-read_u8 λ _. Reads-bind Reads-read_u8 λ _.
                      Reads-bind Reads-read_u16_be λ num_data_blks.
                        Reads-bind Reads-read_u32_be λ vol_ptr. Reads-bind Reads-read_u32_be λ _.
                          Reads-bind Reads-read_u32_be λ rad_ptr. Reads-pure (record {
                            site_id = site_id;
                            scan_time_ms = scan_time_ms;
                            julian_date = julian_date;
                            az_num = az_num;
                            az_angle = az_angle;
                            azimuth_spacing_code = azimuth_spacing_code;
                            radial_status_code = radial_status_code;
                            el_num = el_num;
                            el_angle = el_angle;
                            num_data_blks = num_data_blks;
                            vol_ptr = vol_ptr;
                            rad_ptr = rad_ptr;
                          }))
      (λ bs p. simp add_assoc)

abbrev pub vcp_header_at : Bytes → ℕ → VcpHeader
vcp_header_at bs p = record {
  pattern_type = be_at 2 bs (p + 2);
  vcp_number = be_at 2 bs (p + 4);
  num_el_cuts = be_at 2 bs (p + 6);
}

pub Reads-read_vcp_header : Reads 22 vcp_header_at read_vcp_header
unfolding read_vcp_header
Reads-read_vcp_header =
    Reads-of_eq
      (Reads-bind Reads-read_u16_be λ _. Reads-bind Reads-read_u16_be λ pattern_type.
        Reads-bind Reads-read_u16_be λ vcp_number. Reads-bind Reads-read_u16_be λ num_el_cuts.
          Reads-bind Reads-read_u8 λ _. Reads-bind Reads-read_u8 λ _. Reads-bind Reads-read_u8 λ _.
            Reads-bind Reads-read_u8 λ _. Reads-bind (Reads-read_bytes 4) λ _.
              Reads-bind Reads-read_u16_be λ _. Reads-bind Reads-read_u16_be λ _.
                Reads-bind (Reads-read_bytes 2) λ _. Reads-pure (record {
                  pattern_type = pattern_type;
                  vcp_number = vcp_number;
                  num_el_cuts = num_el_cuts;
                }))
      (λ bs p. simp add_assoc)

abbrev pub cut_at : Bytes → ℕ → CutWords
cut_at bs p = record {
  el_angle_raw = be_at 2 bs p;
  channel_config = u8_at bs (p + 2);
  waveform = u8_at bs (p + 3);
  super_res = u8_at bs (p + 4);
}

pub Reads-read_cut : Reads 46 cut_at read_cut
unfolding read_cut
Reads-read_cut =
    Reads-of_eq
      (Reads-bind Reads-read_u16_be λ el_angle_raw. Reads-bind Reads-read_u8 λ channel_config.
        Reads-bind Reads-read_u8 λ waveform. Reads-bind Reads-read_u8 λ super_res.
          Reads-bind (Reads-read_bytes 41) λ _. Reads-pure (record {
            el_angle_raw = el_angle_raw;
            channel_config = channel_config;
            waveform = waveform;
            super_res = super_res;
          }))
      (λ bs p. simp add_assoc)
