-- ===== src/Tests/Samples.antt =====
-- The inputs of the tests.
use radar_workstation.Common.{
  ℕ, ◌-◌, ◌*◌, ◌/◌, Option, none, some, Bytes, List, [], ◌∷◌, ◌++◌, replicate, String,
}
use radar_workstation.Common.Text.{codes}
use radar_workstation.Decoder.Float32.{FloatOps}
use radar_workstation.Decoder.Radial.{Radial, RadialStatus}
use radar_workstation.Decoder.Product
use radar_workstation.Decoder.Stream.Segments.{Segment, radial}
use radar_workstation.Chunk.{BzDecoder}
use radar_workstation.Chunk.Blocks.{Block}
use radar_workstation.Assembly.{HashOrder}
use radar_workstation.Pipeline.{Platform}

-- An arithmetic that computes, in the place of the hardware's.
abbrev pub plain : FloatOps
plain = record { of_int = λ n. n; sub = λ a b. a - b; mul = λ a b. a * b; div = λ a b. a / b }

abbrev pub insertion_order : HashOrder
insertion_order = record { drain = λ entries. entries }

-- A reflectivity block with two gates of a byte.
abbrev pub ref_block : Bytes
ref_block =
    codes "DREF"
    ++ (0 ∷ 28 ∷ 0 ∷ 1 ∷ 0 ∷ 2 ∷ 0 ∷ 0 ∷ 0 ∷ 1 ∷ 0 ∷ 0 ∷ 0 ∷ 0 ∷ 0 ∷ 8 ∷ [])
    ++ (64 ∷ 0 ∷ 0 ∷ 0 ∷ 66 ∷ 132 ∷ 0 ∷ 0 ∷ 5 ∷ 7 ∷ [])

-- A Message 31 body: site, header, four pointers, and the block.
abbrev pub ref_body : Bytes
ref_body =
    codes "KTLX"
    ++ replicate 17 0
    ++ (1 ∷ 1 ∷ [])
    ++ replicate 7 0
    ++ (0 ∷ 4 ∷ [])
    ++ replicate 12 0
    ++ (0 ∷ 0 ∷ 0 ∷ 48 ∷ [])
    ++ ref_block

abbrev pub ref_record : Bytes
ref_record = replicate 12 0 ++ (0 ∷ 47 ∷ 0 ∷ 31 ∷ []) ++ replicate 12 0 ++ ref_body

-- A record of two reflectivity blocks, of which the second has the gates 9 and 11.
abbrev pub two_refs_body : Bytes
two_refs_body =
    codes "KTLX"
    ++ replicate 17 0
    ++ (1 ∷ 1 ∷ [])
    ++ replicate 7 0
    ++ (0 ∷ 5 ∷ [])
    ++ replicate 12 0
    ++ (0 ∷ 0 ∷ 0 ∷ 52 ∷ 0 ∷ 0 ∷ 0 ∷ 82 ∷ [])
    ++ ref_block
    ++ codes "DREF"
    ++ (0 ∷ 28 ∷ 0 ∷ 1 ∷ 0 ∷ 2 ∷ 0 ∷ 0 ∷ 0 ∷ 1 ∷ 0 ∷ 0 ∷ 0 ∷ 0 ∷ 0 ∷ 8 ∷ [])
    ++ (64 ∷ 0 ∷ 0 ∷ 0 ∷ 66 ∷ 132 ∷ 0 ∷ 0 ∷ 9 ∷ 11 ∷ [])

abbrev pub two_refs_record : Bytes
two_refs_record = replicate 12 0 ++ (0 ∷ 47 ∷ 0 ∷ 31 ∷ []) ++ replicate 12 0 ++ two_refs_body

abbrev pub ref_stream : List Segment
ref_stream = radial ref_record (0 ∷ 0 ∷ []) ∷ []

-- A VCP of one elevation cut at half a degree.
abbrev pub vcp_record : Bytes
vcp_record =
    replicate 28 0
    ++ (0 ∷ 34 ∷ 0 ∷ 2 ∷ 0 ∷ 212 ∷ 0 ∷ 1 ∷ [])
    ++ replicate 14 0
    ++ (0 ∷ 91 ∷ 2 ∷ 1 ∷ 7 ∷ [])
    ++ replicate 41 0

-- A decoder for blocks that hold their content behind a bzip2 magic.
abbrev pub stored_blocks : BzDecoder
stored_blocks = record { yields = inflate }
  where
    inflate : Bytes → Bytes × Option String
    inflate (a ∷ b ∷ c ∷ d ∷ rest) = (rest, none)
    inflate _ = ([], some "unexpected end of file")

abbrev pub platform : Platform
platform = record { bz = stored_blocks; floats = plain; order = insertion_order }

-- The stream of one radial, 108 bytes, in a block.
abbrev pub ref_block_stored : Block
ref_block_stored = record {
  word = 0 ∷ 0 ∷ 0 ∷ 112 ∷ [];
  compressed = codes "BZh9" ++ ref_record ++ (0 ∷ 0 ∷ []);
}

abbrev pub sample_radial : ℕ → RadialStatus → Radial
sample_radial elevation status = record {
  site_id = codes "KTLX";
  scan_time_ms = 100;
  julian_date = 20000;
  azimuth_deg = 0;
  elevation_deg = 0;
  azimuth_number = 1;
  azimuth_spacing_code = 1;
  radial_status = status;
  elevation_number = elevation;
  unambiguous_range_km = none;
  nyquist_velocity_mps = none;
  site_parameters = none;
  products = Product.new;
}
