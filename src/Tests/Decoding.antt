-- ===== src/Tests/Decoding.antt =====
-- The decoder's theorems on concrete records.
use radar_workstation.Common.{
  get_slice?, ℕ, ◌+◌, ◌≡◌, refl, some, none, ok, [], ◌∷◌, ◌++◌, length, arith, if◌then◌else◌,
  to_option, leb,
}
use radar_workstation.Common.Text.{bytes_eq}
use radar_workstation.Common.Int.{as_i16}
use radar_workstation.Decoder.Headers.{
  read_product_header, read_radial_header, read_rvol, read_rrad,
}
use radar_workstation.Decoder.Cursor.{
  for_block, from_be_bytes, at, read_array4, read_be, read_u16_be, read_u8, read_f32_be, read_bytes,
  read_u32_be, read_i16_be,
}
use radar_workstation.Decoder.Product.{
  ref, ProductData, from_block_id, index, get, insert, parse_product, read_gates, from_header,
}
use radar_workstation.Decoder.Product.Gates.{parse_product_lem, product_at, IsWellFormed}
use radar_workstation.Decoder.Radial.{
  parse_message31, parse_rvol, parse_rrad, convert_rrad, read_radial, read_products, make_radial,
  insert_parsed, from_code,
}
use radar_workstation.Decoder.Radial.Layout.{
  parse_message31_lem, parse_message31-IsWellFormed, parse_message31-last, product_ptr_count,
  record_size, radial_at,
}
use radar_workstation.Decoder.Radial.Products.{pointers_at}
use radar_workstation.Decoder.Vcp.{parse_vcp}
use radar_workstation.Decoder.Vcp.Layout.{parse_vcp_lem, vcp_size, vcp_at, el_cut_count}
use radar_workstation.Decoder.Stream.{Visitor, for_each_message, parse_radial_stream}
use radar_workstation.Decoder.Stream.Segments.{
  AllSegments, stream_bytes, visit_all, for_each_message-segments,
}
use radar_workstation.Decoder.Stream.Radials.{
  parse_radial_stream-segments, decode_all, radial_records,
}
use radar_workstation.Tests.Samples.{
  plain, ref_body, ref_record, ref_stream, vcp_record, two_refs_body, two_refs_record,
}

-- A callback that counts the records.
abbrev counting : Visitor ℕ
counting msg_type bytes n = ok (n + 1)

pub ref_stream-AllSegments : AllSegments ref_stream
unfolding from_be_bytes
ref_stream-AllSegments = ((omega arith, refl, refl, refl), tt)

parse_radial_stream-segments_example :
    parse_radial_stream plain (stream_bytes ref_stream ++ [])
    ≡ some (decode_all plain (radial_records ref_stream))
parse_radial_stream-segments_example =
    parse_radial_stream-segments plain ref_stream [] ref_stream-AllSegments (omega arith)

for_each_message-segments_example :
    for_each_message counting (stream_bytes ref_stream ++ []) 0
    ≡ some (visit_all counting ref_stream 0)
for_each_message-segments_example =
    for_each_message-segments counting ref_stream [] 0 ref_stream-AllSegments (omega arith)

parse_message31_lem_example : to_option (parse_message31 plain ref_record) ≡ (
    if leb (record_size ref_record) (length ref_record)
    then some (radial_at plain ref_record)
    else none)
parse_message31_lem_example = parse_message31_lem plain ref_record

abbrev ref_product : ProductData
ref_product = record {
  gate_count = 2;
  first_gate_m = 0;
  gate_width_m = 1;
  word_size = 8;
  scale = 1073741824;
  offset = 1115947008;
  gates = 5 ∷ 7 ∷ [];
}

ref_block_parsed : parse_product ref_body 48 ≡ some (ref, ref_product)
unfolding parse_product for_block at read_array4 read_be get_slice? from_block_id bytes_eq
    read_product_header read_u16_be read_u8 read_f32_be read_gates read_bytes from_be_bytes
    from_header
ref_block_parsed = refl

pub ref_record_parsed : parse_message31 plain ref_record ≡ ok (radial_at plain ref_record)
unfolding parse_product for_block at read_array4 read_be get_slice? from_block_id bytes_eq
    read_product_header read_u16_be read_u8 read_f32_be read_gates read_bytes from_be_bytes
    from_header parse_message31 read_radial read_radial_header read_u32_be read_products make_radial
    insert_parsed parse_rvol parse_rrad from_code insert index read_rvol read_rrad convert_rrad
    read_i16_be as_i16
ref_record_parsed = refl

ref_found : get (radial_at plain ref_record).products ref ≡ some ref_product
unfolding parse_product for_block at read_array4 read_be get_slice? from_block_id bytes_eq
    read_product_header read_u16_be read_u8 read_f32_be read_gates read_bytes from_be_bytes
    from_header make_radial insert_parsed insert index get
ref_found = refl

parse_message31-IsWellFormed_example : IsWellFormed ref_product
parse_message31-IsWellFormed_example =
    parse_message31-IsWellFormed plain ref_record (radial_at plain ref_record) ref ref_product
      ref_record_parsed ref_found

parse_product_lem_example : parse_product ref_body 48 ≡ product_at ref_body 48
parse_product_lem_example = parse_product_lem ref_body 48

parse_vcp_lem_example :
    (to_option (parse_vcp plain vcp_record) ≡ (
      if leb (vcp_size vcp_record) (length vcp_record)
      then some (vcp_at plain vcp_record)
      else none))
    × (length (vcp_at plain vcp_record).elevations ≡ el_cut_count vcp_record)
parse_vcp_lem_example = parse_vcp_lem plain vcp_record

abbrev last_ref : ProductData
last_ref = record ref_product { gates = 9 ∷ 11 ∷ [] }

two_refs_parsed : parse_message31 plain two_refs_record ≡ ok (radial_at plain two_refs_record)
unfolding parse_product for_block at read_array4 read_be get_slice? from_block_id bytes_eq
    read_product_header read_u16_be read_u8 read_f32_be read_gates read_bytes from_be_bytes
    from_header parse_message31 read_radial read_radial_header read_u32_be read_products make_radial
    insert_parsed parse_rvol parse_rrad from_code insert index read_rvol read_rrad convert_rrad
    read_i16_be as_i16
two_refs_parsed = refl

pointers : pointers_at (product_ptr_count two_refs_record) two_refs_body 44 ≡ (52 ∷ []) ++ 82 ∷ []
unfolding from_be_bytes
pointers = refl

last_ref_there : product_at two_refs_body 82 ≡ some (ref, last_ref)
unfolding bytes_eq from_be_bytes
last_ref_there = refl

-- Both pointers lead to a reflectivity block.
parse_message31-last_example : get (radial_at plain two_refs_record).products ref ≡ some last_ref
parse_message31-last_example =
    parse_message31-last plain two_refs_record (radial_at plain two_refs_record) ref (52 ∷ []) [] 82
      last_ref two_refs_parsed pointers last_ref_there tt
