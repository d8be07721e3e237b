-- ===== src/Decoder/Product.antt =====
-- crates/nexrad-decoder/src/types/product.rs and parse/product.rs: product kinds, one block of
-- gates, the per-radial map of products, and the parser of a product block.
pub mod Kinds
pub mod Slots
pub mod Gates
use radar_workstation.Common.{
  ℕ, zero, suc, ◌+◌, ◌-◌, ◌*◌, ◌/◌, Bool, true, false, not, ◌&&◌, Option, none, some, List, [], ◌∷◌,
  Bytes, get_elem?, get_or, set, replicate, ltb, ◌==◌, if◌then◌else◌, map, to_option,
}
use radar_workstation.Common.Maybe.{◌>>=◌}
use radar_workstation.Common.Text.{codes, bytes_eq}
use radar_workstation.Decoder.Cursor.{Cursor, F32, soft, for_block, from_be_bytes, read_bytes}
use radar_workstation.Decoder.Float32.{FloatOps}
use radar_workstation.Decoder.Headers.{ProductHeader, read_product_header}

pub data ProductKind : Type 0 where
  ref vel spectrum_width zdr phi rho cfp : ProductKind

abbrev pub product_kind_count : ℕ
product_kind_count = 7

unfoldable pub from_block_id : Bytes → Option ProductKind
from_block_id id =
    if bytes_eq id (codes "DREF")
    then some ref
    else if bytes_eq id (codes "DVEL")
    then some vel
    else if bytes_eq id (codes "DSW ")
    then some spectrum_width
    else if bytes_eq id (codes "DZDR")
    then some zdr
    else if bytes_eq id (codes "DPHI")
    then some phi
    else if bytes_eq id (codes "DRHO")
    then some rho
    else if bytes_eq id (codes "DCFP")
    then some cfp
    else none

unfoldable pub index : ProductKind → ℕ
index ref = 0
index vel = 1
index spectrum_width = 2
index zdr = 3
index phi = 4
index rho = 5
index cfp = 6

abbrev pub all_product_kinds : List ProductKind
all_product_kinds = ref ∷ vel ∷ spectrum_width ∷ zdr ∷ phi ∷ rho ∷ cfp ∷ []

-- The field `data` of the source is `gates` here.
pub record ProductData : Type 0 where
  pub gate_count : ℕ
  pub first_gate_m : ℕ
  pub gate_width_m : ℕ
  pub word_size : ℕ
  pub scale : F32
  pub offset : F32
  pub gates : Bytes

unfoldable pub raw_gate : ProductData → ℕ → Option ℕ
raw_gate d i =
    if d.word_size == 8
    then get_elem? d.gates i
    else if d.word_size == 16
    then (do
      hi ← get_elem? d.gates (i * 2)
      lo ← get_elem? d.gates (i * 2 + 1)
      some (from_be_bytes (hi ∷ lo ∷ [])))
    else none

unfoldable pub physical_value : FloatOps → ProductData → ℕ → Option F32
physical_value f d i = do
  raw ← raw_gate d i
  if ltb raw 2 then none else some (f.div (f.sub (f.of_int raw) d.offset) d.scale)

-- `slots: [Option<ProductData>; PRODUCT_KIND_COUNT]`
pub record ProductMap : Type 0 where
  pub slots : List (Option ProductData)

abbrev pub new : ProductMap
new = record { slots = replicate product_kind_count none }

unfoldable pub insert : ProductKind → ProductData → ProductMap → ProductMap
insert kind d m = record { slots = set m.slots (index kind) (some d) }

-- `self.slots[i]`
abbrev pub slot : ProductMap → ℕ → Option ProductData
slot m i = get_or m.slots i none

unfoldable pub get : ProductMap → ProductKind → Option ProductData
get m kind = slot m (index kind)

unfoldable pub contains_key : ProductMap → ProductKind → Bool
contains_key m kind = elim (slot m (index kind)) [ some d ↦ true | none ↦ false ]

pub record ProductMapIter : Type 0 where
  pub map : ProductMap
  pub idx : ℕ

-- The `while` loop of `ProductMapIter::next`, on the rounds left: `PRODUCT_KIND_COUNT - idx`.
scan : ℕ → ProductMap → ℕ → Option (ProductKind × ProductData) × ProductMapIter
scan zero m idx = (none, record { map = m; idx = idx })
scan (suc rounds) m idx = elim (slot m idx) [
  | some d ↦ (some (get_or all_product_kinds idx ref, d), record { map = m; idx = idx + 1 })
  | none ↦ scan rounds m (idx + 1)
]

unfoldable pub next : ProductMapIter → Option (ProductKind × ProductData) × ProductMapIter
unfolding scan
next it = scan (product_kind_count - it.idx) it.map it.idx

unfoldable pub iter : ProductMap → ProductMapIter
iter m = record { map = m; idx = 0 }

-- What a `for` loop over the iterator sees, in at most `fuel` items.
unfoldable pub collect : ℕ → ProductMapIter → List (ProductKind × ProductData)
collect zero it = []
collect (suc fuel) it = elim (next it).0 [
  | some entry ↦ entry ∷ collect fuel (next it).1
  | none ↦ []
]

unfoldable pub keys : ProductMap → List ProductKind
unfolding collect iter
keys m = map (λ (e : ProductKind × ProductData). e.0) (collect product_kind_count (iter m))

unfoldable pub from_header : ProductHeader → Bytes → ProductData
from_header h gates = record {
  gate_count = h.gate_count;
  first_gate_m = h.first_gate_m;
  gate_width_m = h.gate_width_m;
  word_size = h.word_size;
  scale = h.scale;
  offset = h.offset;
  gates = gates;
}

-- The word size is checked, and the gates are read.
unfoldable pub read_gates :
    ProductKind → ProductHeader → Cursor → Option (ProductKind × ProductData)
read_gates kind h c = if not (h.word_size == 8) && not (h.word_size == 16) then none else (do
  (raw, _) ← soft (read_bytes (h.gate_count * (h.word_size / 8))) c
  some (kind, from_header h raw))

unfoldable pub parse_product : Bytes → ℕ → Option (ProductKind × ProductData)
parse_product body ptr = do
  (block_id, c) ← for_block body ptr
  kind ← from_block_id block_id
  (h, c') ← soft read_product_header c
  read_gates kind h c'
