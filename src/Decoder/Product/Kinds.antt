-- ===== src/Decoder/Product/Kinds.antt =====
-- The block ids and the product kinds.
use radar_workstation.Common.{◌≡◌, refl, ap, ◌∙◌, ◌↔◌, some, Bytes, arith, get_elem?}
use radar_workstation.Common.Text.{codes, bytes_eq, eq_of_bytes_eq}
use radar_workstation.Decoder.Product.{
  ProductKind, ref, vel, spectrum_width, zdr, phi, rho, cfp, from_block_id, index,
  all_product_kinds,
}

-- The ICD's name of each kind.
abbrev pub block_id : ProductKind → Bytes
block_id ref = codes "DREF"
block_id vel = codes "DVEL"
block_id spectrum_width = codes "DSW "
block_id zdr = codes "DZDR"
block_id phi = codes "DPHI"
block_id rho = codes "DRHO"
block_id cfp = codes "DCFP"

from_block_id-block_id : (kind : ProductKind) → from_block_id (block_id kind) ≡ some kind
unfolding from_block_id bytes_eq
from_block_id-block_id ref = refl
from_block_id-block_id vel = refl
from_block_id-block_id spectrum_width = refl
from_block_id-block_id zdr = refl
from_block_id-block_id phi = refl
from_block_id-block_id rho = refl
from_block_id-block_id cfp = refl

block_id_of_some :
    (id : Bytes) (kind : ProductKind) → from_block_id id ≡ some kind → id ≡ block_id kind
unfolding from_block_id
block_id_of_some id kind h = ground (
  arith,
  eq_of_bytes_eq id (codes "DREF"),
  eq_of_bytes_eq id (codes "DVEL"),
  eq_of_bytes_eq id (codes "DSW "),
  eq_of_bytes_eq id (codes "DZDR"),
  eq_of_bytes_eq id (codes "DPHI"),
  eq_of_bytes_eq id (codes "DRHO"),
  eq_of_bytes_eq id (codes "DCFP"),
)

-- A block id is accepted exactly when it is the ICD's name of the kind that is returned.
pub from_block_id_iff :
    (id : Bytes) (kind : ProductKind) → (from_block_id id ≡ some kind) ↔ (id ≡ block_id kind)
from_block_id_iff id kind =
    (block_id_of_some id kind, λ e. ap from_block_id e ∙ from_block_id-block_id kind)

pub get_elem?-index : (kind : ProductKind) → get_elem? all_product_kinds (index kind) ≡ some kind
unfolding index
get_elem?-index ref = refl
get_elem?-index vel = refl
get_elem?-index spectrum_width = refl
get_elem?-index zdr = refl
get_elem?-index phi = refl
get_elem?-index rho = refl
get_elem?-index cfp = refl
