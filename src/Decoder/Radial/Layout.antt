-- ===== src/Decoder/Radial/Layout.antt =====
-- The Message 31 parser against the layout of a record.
use native.Mathlib.Decide.{dec_le, dec_lt}
use radar_workstation.Common.{
  ℕ, ◌+◌, ◌-◌, ◌*◌, ◌≤◌, ◌<◌, ◌≡◌, ◌++◌, zero, refl, sym, ap, ◌∙◌, ok_eq, Bytes, Bool, true, false,
  Option, List, [], ◌∷◌, suc, get_or, slice, some, none, length, drop, length-drop, ok, err, arith,
  to_option, leb, le→leb, lt→leb, if◌then◌else◌, le→ltb, lt→ltb,
}
use radar_workstation.Common.Text.{codes}
use radar_workstation.Decoder.Cursor.{F32, DecodeError, truncated, new}
use radar_workstation.Decoder.Cursor.Reads.{be_at, u8_at, advance}
use radar_workstation.Decoder.Float32.{FloatOps}
use radar_workstation.Decoder.Headers.Layout.{
  rvol_at, rrad_at, radial_header_at, Reads-read_radial_header,
}
use radar_workstation.Decoder.Product
use radar_workstation.Decoder.Product.{ProductKind, ProductData, ProductMap, get, parse_product}
use radar_workstation.Decoder.Product.Gates.{
  IsWellFormed, product_at, parse_product_lem, parse_product-IsWellFormed,
}
use radar_workstation.Decoder.Product.Slots.{get-new}
use radar_workstation.Decoder.Radial.{
  Radial, RadialStatus, start_of_elevation, intermediate, end_of_elevation, start_of_volume,
  end_of_volume, start_of_last_elevation, unknown, from_code, map_option, RradConstants,
  convert_rrad, body_offset, make_radial, read_radial, parse_message31,
}
use radar_workstation.Decoder.Radial.Optional.{has_block, parse_rvol_lem, parse_rrad_lem}
use radar_workstation.Decoder.Radial.Products.{
  pointers_at, stored, NoneIs, get-stored_last, get-stored_frame, Reads-read_products, AllProducts,
  stored-AllProducts,
}

-- How many product pointers a record announces: the blocks but the three constant ones.
abbrev pub product_ptr_count : Bytes → ℕ
product_ptr_count bytes = be_at 2 (drop body_offset bytes) 30 - 3

-- The bytes that a record must have: headers, three pointers, and the product pointers.
abbrev pub record_size : Bytes → ℕ
record_size bytes = 72 + product_ptr_count bytes * 4

-- The products of a record: the blocks of its pointer table.
abbrev pub products_at : Bytes → ProductMap
products_at bytes =
    let body = drop body_offset bytes in
    stored body Product.new (pointers_at (product_ptr_count bytes) body 44)

abbrev pub status_at : ℕ → RadialStatus
status_at code =
    get_or
      (start_of_elevation ∷ intermediate ∷ end_of_elevation ∷ start_of_volume ∷ end_of_volume
        ∷ start_of_last_elevation ∷ [])
      code (unknown code)

-- A field of the RRAD block behind `ptr`, over its unit.
abbrev pub rrad_field_at : FloatOps → Bytes → ℕ → ℕ → F32 → Option F32
rrad_field_at f body ptr offset unit =
    if has_block body ptr (82 ∷ 82 ∷ 65 ∷ 68 ∷ []) 18
    then some (f.div (f.of_int (be_at 2 body (ptr + 4 + offset))) unit)
    else none

-- The radial of a record, by its offsets; the ranges are in units of 1 / 8 km and of 1 / 100 m/s.
abbrev pub radial_at : FloatOps → Bytes → Radial
radial_at f bytes =
    let body = drop body_offset bytes in
    let vol_ptr = be_at 4 body 32 in
    let rad_ptr = be_at 4 body 40 in
    record {
      site_id = slice body 0 4;
      scan_time_ms = be_at 4 body 4;
      julian_date = be_at 2 body 8;
      azimuth_deg = be_at 4 body 12;
      elevation_deg = be_at 4 body 24;
      azimuth_number = be_at 2 body 10;
      azimuth_spacing_code = u8_at body 20;
      radial_status = status_at (u8_at body 21);
      elevation_number = u8_at body 22;
      unambiguous_range_km = rrad_field_at f body rad_ptr 2 0x41000000;
      nyquist_velocity_mps = rrad_field_at f body rad_ptr 12 0x42c80000;
      site_parameters =
          if has_block body vol_ptr (82 ∷ 86 ∷ 79 ∷ 76 ∷ []) 44
          then some (rvol_at body (vol_ptr + 4))
          else none;
      products = products_at bytes;
    }

from_code-status_at : (code : ℕ) → from_code code ≡ status_at code
unfolding from_code
from_code-status_at zero = refl
from_code-status_at (suc zero) = refl
from_code-status_at (suc (suc zero)) = refl
from_code-status_at (suc (suc (suc zero))) = refl
from_code-status_at (suc (suc (suc (suc zero)))) = refl
from_code-status_at (suc (suc (suc (suc (suc zero))))) = refl
from_code-status_at (suc (suc (suc (suc (suc (suc n)))))) = ground arith

map_option-if :
    {A B : Type 0} (g : A → B) (test : Bool) (a : A)
    → map_option g (if test then some a else none) ≡ (if test then some (g a) else none)
map_option-if g true a = refl
map_option-if g false a = refl

make_radial-radial_at :
    (f : FloatOps) (bytes : Bytes)
    → let body = drop body_offset bytes in
      make_radial f body (radial_header_at body 0) (products_at bytes) ≡ radial_at f bytes
unfolding make_radial convert_rrad
make_radial-radial_at f bytes =
    let body = drop body_offset bytes in
    let rad_ptr = be_at 4 body 40 in
    let words = convert_rrad f (rrad_at body (rad_ptr + 4)) in
    let given = has_block body rad_ptr (codes "RRAD") 18 in
    rw
      (
        parse_rvol_lem body (be_at 4 body 32),
        parse_rrad_lem f body rad_ptr,
        from_code-status_at (u8_at body 21),
        map_option-if (λ (r : RradConstants). r.unambiguous_range_km) given words,
        map_option-if (λ (r : RradConstants). r.nyquist_velocity_mps) given words,
      )
      refl

read_radial-short :
    (body : Bytes)
    → length body < 44 + (be_at 2 body 30 - 3) * 4
    → (e : DecodeError) × (read_radial body (new body) ≡ err e)
unfolding read_radial
read_radial-short body h = elim (dec_le 44 (length body)) [
  | yes fits ↦
      let (e, q) =
        (Reads-read_products body (be_at 2 body 30 - 3) Product.new).short (advance (new body) 44)
          fits h in
      (e, rw (Reads-read_radial_header.room (new body) fits) (rw q))
  | no over ↦
      let (e, q) = Reads-read_radial_header.short (new body) (omega arith) (omega arith) in
      (e, rw q)
]

module _ (f : FloatOps) (bytes : Bytes) where
  parse_message31-made :
      record_size bytes ≤ length bytes
      → let body = drop body_offset bytes in
        parse_message31 f bytes
        ≡ ok (make_radial f body (radial_header_at body 0) (products_at bytes))
  unfolding parse_message31
  parse_message31-made h =
      let body = drop body_offset bytes in
      let size : length body ≡ length bytes - 28 = length-drop body_offset bytes in
      rw (le→ltb (length bytes) 60 (omega arith)) (
        rw (Reads-read_radial_header.room (new body) (omega arith)) (
          rw (
            (Reads-read_products body (product_ptr_count bytes) Product.new).room
              (advance (new body) 44) (omega arith))))

  parse_message31-room :
      record_size bytes ≤ length bytes → parse_message31 f bytes ≡ ok (radial_at f bytes)
  parse_message31-room h = parse_message31-made h ∙ ap ok (make_radial-radial_at f bytes)

  parse_message31-short :
      length bytes < record_size bytes → (e : DecodeError) × (parse_message31 f bytes ≡ err e)
  unfolding parse_message31
  parse_message31-short h = elim (dec_lt (length bytes) 60) [
    | yes tiny ↦ (truncated "msg31 record", rw (lt→ltb (length bytes) 60 tiny))
    | no big ↦
        let size : length (drop body_offset bytes) ≡ length bytes - 28 =
          length-drop body_offset bytes in
        let (e, q) = read_radial-short (drop body_offset bytes) (omega arith) in
        (e, rw (le→ltb (length bytes) 60 (omega arith)) (rw q))
  ]

-- A record is decoded exactly when it holds its headers and its pointer table, and then every
-- field is the one at its offset, those of the RVOL and the RRAD block where these are there, and
-- the products are what its pointers lead to: no optional block and no product block can make it fail.
pub parse_message31_lem :
    (f : FloatOps) (bytes : Bytes)
    → to_option (parse_message31 f bytes)
      ≡ (if leb (record_size bytes) (length bytes) then some (radial_at f bytes) else none)
parse_message31_lem f bytes = elim (dec_le (record_size bytes) (length bytes)) [
  | yes fits ↦
      rw (parse_message31-room f bytes fits)
        (rw (le→leb (record_size bytes) (length bytes) fits) refl)
  | no over ↦
      let (e, q) = parse_message31-short f bytes (omega arith) in
      rw q (rw (lt→leb (record_size bytes) (length bytes) (omega arith)) refl)
]

products_at-AllProducts : (bytes : Bytes) → AllProducts (λ _ d. IsWellFormed d) (products_at bytes)
products_at-AllProducts bytes =
    let body = drop body_offset bytes in
    stored-AllProducts (λ _ d. IsWellFormed d) body (parse_product-IsWellFormed body) Product.new
      (pointers_at (product_ptr_count bytes) body 44) refl
      (record { at = λ kind d h. cc (get-new kind) })

-- Every product of a decoded radial is well formed.
pub parse_message31-IsWellFormed :
    (f : FloatOps) (bytes : Bytes) (r : Radial) (kind : ProductKind) (d : ProductData)
    → parse_message31 f bytes ≡ ok r
    → get r.products kind ≡ some d
    → IsWellFormed d
parse_message31-IsWellFormed f bytes r kind d parsed found =
    elim (dec_le (record_size bytes) (length bytes)) [
      | yes fits ↦ (products_at-AllProducts bytes).at kind d (
          ap (λ (x : Radial). get x.products kind)
            (ok_eq (sym (parse_message31-room f bytes fits) ∙ parsed))
          ∙ found)
      | no over ↦ let (e, q) = parse_message31-short f bytes (omega arith) in cc
    ]

get-products :
    (f : FloatOps) (bytes : Bytes) (r : Radial) (kind : ProductKind)
    → parse_message31 f bytes ≡ ok r
    → get r.products kind ≡ get (products_at bytes) kind
get-products f bytes r kind parsed = elim (dec_le (record_size bytes) (length bytes)) [
  | yes fits ↦
      ap (λ (x : Radial). get x.products kind)
        (ok_eq (sym parsed ∙ parse_message31-room f bytes fits))
  | no over ↦ let (e, q) = parse_message31-short f bytes (omega arith) in cc
]

-- Of the blocks of one kind that a decoded record's pointers lead to, in the order of the pointers,
-- the last is the one that the radial has.
pub parse_message31-last :
    (f : FloatOps) (bytes : Bytes) (r : Radial) (kind : ProductKind) (before after : List ℕ)
    (ptr : ℕ) (d : ProductData)
    → parse_message31 f bytes ≡ ok r
    → pointers_at (product_ptr_count bytes) (drop body_offset bytes) 44 ≡ before ++ ptr ∷ after
    → product_at (drop body_offset bytes) ptr ≡ some (kind, d)
    → NoneIs (drop body_offset bytes) kind after
    → get r.products kind ≡ some d
parse_message31-last f bytes r kind before after ptr d parsed table found later =
    let body = drop body_offset bytes in
    get-products f bytes r kind parsed
    ∙ ap (λ ptrs. get (stored body Product.new ptrs) kind) table
    ∙ get-stored_last body kind before ptr after Product.new d refl
        (parse_product_lem body ptr ∙ found) later

-- A decoded radial has no product of a kind of which there is no block.
parse_message31-absent :
    (f : FloatOps) (bytes : Bytes) (r : Radial) (kind : ProductKind)
    → parse_message31 f bytes ≡ ok r
    → NoneIs
        (drop body_offset bytes)
        kind
        (pointers_at (product_ptr_count bytes) (drop body_offset bytes) 44)
    → get r.products kind ≡ none
parse_message31-absent f bytes r kind parsed absent =
    let body = drop body_offset bytes in
    get-products f bytes r kind parsed
    ∙ get-stored_frame body kind (pointers_at (product_ptr_count bytes) body 44) Product.new refl
        absent
    ∙ get-new kind
