-- ===== src/Compute.antt =====
-- crates/radar-workstation/src/compute/mod.rs: the products that are displayed.
use radar_workstation.Common.{ℕ, Bytes, Option, none, some, List, [], ◌∷◌, if◌then◌else◌}
use radar_workstation.Decoder.Cursor.{F32}
use radar_workstation.Common.Text.{codes, bytes_eq}

pub data DisplayProduct : Type 0 where
  reflectivity velocity spectrum_width zdr cc_product echo_tops vil : DisplayProduct

-- `Display`
unfoldable pub product_name : DisplayProduct → Bytes
product_name reflectivity = codes "ref"
product_name velocity = codes "vel"
product_name spectrum_width = codes "sw"
product_name zdr = codes "zdr"
product_name cc_product = codes "cc"
product_name echo_tops = codes "echo_tops"
product_name vil = codes "vil"

-- `DisplayProduct::ALL`
abbrev pub all_products : List DisplayProduct
all_products = reflectivity ∷ velocity ∷ spectrum_width ∷ zdr ∷ cc_product ∷ echo_tops ∷ vil ∷ []

unfoldable pub find_named : Bytes → List DisplayProduct → Option DisplayProduct
find_named s [] = none
find_named s (p ∷ ps) = if bytes_eq (product_name p) s then some p else find_named s ps

-- `DisplayProduct::parse`
unfoldable pub parse_display_product : Bytes → Option DisplayProduct
parse_display_product s = find_named s all_products

-- The order that is derived: the place among the variants.
unfoldable pub rank : DisplayProduct → ℕ
rank reflectivity = 0
rank velocity = 1
rank spectrum_width = 2
rank zdr = 3
rank cc_product = 4
rank echo_tops = 5
rank vil = 6

-- `SweepGrid` of compute/grid.rs.
pub record SweepGrid : Type 0 where
  pub product : DisplayProduct
  pub azimuth_count : ℕ
  pub gate_count : ℕ
  pub first_gate_m : ℕ
  pub gate_width_m : ℕ
  pub elevation_number : ℕ
  pub elevation_deg : F32
  pub nyquist_velocity_mps : Option F32
  pub scale : F32
  pub offset : F32
  pub cells : List ℕ
  pub filled_azimuths : ℕ
