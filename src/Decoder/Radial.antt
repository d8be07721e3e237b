-- ===== src/Decoder/Radial.antt =====
-- crates/nexrad-decoder/src/parse/radial.rs, parse/blocks.rs and types/radial.rs: the parser of a
-- Message 31 record.
pub mod Optional
pub mod Products
pub mod Layout
use radar_workstation.Common.{
  ℕ, zero, suc, ◌+◌, ◌-◌, Option, none, some, Result, ok, err, and_then, Bytes, length, drop, ltb,
  ◌==◌, if◌then◌else◌, List, [], ◌∷◌,
}
use radar_workstation.Common.Maybe.{◌>>=◌}
use radar_workstation.Common.Text.{codes, bytes_eq}
use radar_workstation.Decoder.Cursor
use radar_workstation.Decoder.Cursor.{
  DecodeError, truncated, F32, Parser, soft, for_block, read_u32_be, pure,
}
use radar_workstation.Decoder.Float32.{FloatOps, f32_8, f32_100}
use radar_workstation.Decoder.Headers.{
  SiteParameters, read_rvol, RradWords, read_rrad, RadialHeader, read_radial_header,
}
use radar_workstation.Decoder.Product
use radar_workstation.Decoder.Product.{ProductKind, ProductData, ProductMap, parse_product}

pub data RadialStatus : Type 0 where
  start_of_elevation intermediate end_of_elevation start_of_volume end_of_volume : RadialStatus
  start_of_last_elevation : RadialStatus
  unknown : ℕ → RadialStatus

unfoldable pub from_code : ℕ → RadialStatus
from_code code =
    if code == 0
    then start_of_elevation
    else if code == 1
    then intermediate
    else if code == 2
    then end_of_elevation
    else if code == 3
    then start_of_volume
    else if code == 4
    then end_of_volume
    else if code == 5
    then start_of_last_elevation
    else unknown code

pub record Radial : Type 0 where
  pub site_id : Bytes
  pub scan_time_ms : ℕ
  pub julian_date : ℕ
  pub azimuth_deg : F32
  pub elevation_deg : F32
  pub azimuth_number : ℕ
  pub azimuth_spacing_code : ℕ
  pub radial_status : RadialStatus
  pub elevation_number : ℕ
  pub unambiguous_range_km : Option F32
  pub nyquist_velocity_mps : Option F32
  pub site_parameters : Option SiteParameters
  pub products : ProductMap

unfoldable pub parse_rvol : Bytes → ℕ → Option SiteParameters
parse_rvol body ptr = do
  (block_id, c) ← for_block body ptr
  if bytes_eq block_id (codes "RVOL")
      then (do (parameters, _) ← soft read_rvol c; some parameters)
      else none

pub record RradConstants : Type 0 where
  pub unambiguous_range_km : F32
  pub nyquist_velocity_mps : F32

-- The unit conversion of the ICD.
unfoldable pub convert_rrad : FloatOps → RradWords → RradConstants
convert_rrad f w = record {
  unambiguous_range_km = f.div (f.of_int w.unamb_range_raw) f32_8;
  nyquist_velocity_mps = f.div (f.of_int w.nyquist_raw) f32_100;
}

unfoldable pub parse_rrad : FloatOps → Bytes → ℕ → Option RradConstants
parse_rrad f body ptr = do
  (block_id, c) ← for_block body ptr
  if bytes_eq block_id (codes "RRAD")
      then (do (words, _) ← soft read_rrad c; some (convert_rrad f words))
      else none

unfoldable pub insert_parsed : ProductMap → Option (ProductKind × ProductData) → ProductMap
insert_parsed products none = products
insert_parsed products (some (kind, d)) = Product.insert kind d products

-- The loop over the product pointers.
unfoldable pub read_products : Bytes → ℕ → ProductMap → Parser ProductMap
read_products body zero products = pure products
read_products body (suc n) products =
    Cursor.◌>>=◌ read_u32_be
      (λ ptr. read_products body n (insert_parsed products (parse_product body ptr)))

abbrev pub body_offset : ℕ
body_offset = 28

abbrev pub map_option : {A B : Type 0} → (A → B) → Option A → Option B
map_option f none = none
map_option f (some a) = some (f a)

-- The record that the parser returns, from the header, the products and the optional blocks.
unfoldable pub make_radial : FloatOps → Bytes → RadialHeader → ProductMap → Radial
make_radial f body h products =
    let site_parameters = parse_rvol body h.vol_ptr in
    let rrad = parse_rrad f body h.rad_ptr in
    record {
      site_id = h.site_id;
      scan_time_ms = h.scan_time_ms;
      julian_date = h.julian_date;
      azimuth_deg = h.az_angle;
      elevation_deg = h.el_angle;
      azimuth_number = h.az_num;
      azimuth_spacing_code = h.azimuth_spacing_code;
      radial_status = from_code h.radial_status_code;
      elevation_number = h.el_num;
      unambiguous_range_km = map_option (λ (r : RradConstants). r.unambiguous_range_km) rrad;
      nyquist_velocity_mps = map_option (λ (r : RradConstants). r.nyquist_velocity_mps) rrad;
      site_parameters = site_parameters;
      products = products;
    }

-- The reads of the record, in sequence: the header, then the product pointers.
unfoldable pub read_radial : Bytes → Parser (RadialHeader × ProductMap)
read_radial body = Cursor.◌>>=◌ read_radial_header (λ h.
    Cursor.◌>>=◌ (read_products body (h.num_data_blks - 3) Product.new)
      (λ products. pure (h, products)))

unfoldable pub parse_message31 : FloatOps → Bytes → Result DecodeError Radial
unfolding read_radial
parse_message31 f bytes =
    if ltb (length bytes) (body_offset + 32)
    then err (truncated "msg31 record")
    else let body = drop body_offset bytes in
      and_then (read_radial body (Cursor.new body)) (λ r. ok (make_radial f body r.0.0 r.0.1))
