-- ===== src/Decoder/Product/Gates.antt =====
-- The product parser against the layout of a block, and the gates of what it returns.
use native.Mathlib.Decide.{dec_le, dec_lt}
use radar_workstation.Common.{
  List, [], ◌∷◌, refl, ℕ, ◌+◌, ◌*◌, ◌/◌, ◌≤◌, ◌<◌, ◌≡◌, sym, ◌∙◌, ◌⊎◌, inl, inr, not, ◌&&◌, Option,
  some, none, Bytes, length, slice, length-slice, leb, ltb, ◌==◌, if◌then◌else◌, arith,
  Option-cases, le→leb, lt→ltb, le→ltb, get_or, get_elem?-eq_some, get_elem?-eq_none, Bool-cases,
  leb→le,
}
use radar_workstation.Common.Maybe.{◌>>=◌, bind-eq_some}
use radar_workstation.Common.Text.{bytes_eq}
use radar_workstation.Decoder.Cursor.{soft, from_be_bytes}
use radar_workstation.Decoder.Cursor.Blocks.{soft-Reads, soft-Reads_block, for_block_lem, cursor_at}
use radar_workstation.Decoder.Cursor.Reads.{Reads-read_bytes, be_at, u8_at}
use radar_workstation.Decoder.Headers.{ProductHeader, read_product_header}
use radar_workstation.Decoder.Headers.Layout.{product_header_at, Reads-read_product_header}
use radar_workstation.Decoder.Product.{
  ProductKind, ref, vel, spectrum_width, zdr, phi, rho, cfp, ProductData, from_block_id,
  from_header, parse_product, raw_gate, read_gates,
}

-- What the parser reads, with its own table of the ids.
abbrev gates_at : Bytes → ℕ → ProductKind → ProductHeader → Option (ProductKind × ProductData)
gates_at body p kind h =
    if not (h.word_size == 8) && not (h.word_size == 16)
    then none
    else if leb (p + h.gate_count * (h.word_size / 8)) (length body)
    then some (kind, from_header h (slice body p (h.gate_count * (h.word_size / 8))))
    else none

abbrev read_product_at : Bytes → ℕ → Option (ProductKind × ProductData)
read_product_at body ptr =
    if ptr == 0
    then none
    else if leb (ptr + 28) (length body)
    then (do
      kind ← from_block_id (slice body ptr 4)
      gates_at body (ptr + 28) kind (product_header_at body (ptr + 4)))
    else none

read_gates_lem :
    (kind : ProductKind) (h : ProductHeader) (body : Bytes) (p : ℕ)
    → p ≤ length body
    → read_gates kind h (cursor_at body p) ≡ gates_at body p kind h
unfolding read_gates
read_gates_lem kind h body p fits = ground (
  arith,
  soft-Reads (Reads-read_bytes (h.gate_count * (h.word_size / 8))) (cursor_at body p) fits,
)

-- The parser behind the kind.
behind_kind :
    (kind : ProductKind) (body : Bytes) (ptr : ℕ)
    → ptr + 4 ≤ length body
    → (soft read_product_header (cursor_at body (ptr + 4)) >>= λ r. read_gates kind r.0 r.1) ≡ (
        if leb (ptr + 28) (length body)
        then gates_at body (ptr + 28) kind (product_header_at body (ptr + 4))
        else none)
behind_kind kind body ptr h = elim (Bool-cases (leb (ptr + 28) (length body))) [
  | inl fits ↦ rw (soft-Reads_block Reads-read_product_header body ptr h) (
      rw fits
        (read_gates_lem kind (product_header_at body (ptr + 4)) body (ptr + 28) (leb→le _ _ fits)))
  | inr over ↦ rw (soft-Reads_block Reads-read_product_header body ptr h) (rw over)
]

read_product_at_lem : (body : Bytes) (ptr : ℕ) → parse_product body ptr ≡ read_product_at body ptr
unfolding parse_product
read_product_at_lem body ptr = rw for_block_lem (elim (Bool-cases (ptr == 0)) [
  | inl null ↦ rw null
  | inr present ↦ elim (dec_le (ptr + 4) (length body)) [
    | no over ↦ ground arith
    | yes fits ↦ elim (Option-cases (from_block_id (slice body ptr 4))) [
      | inl unknown ↦ ground arith
      | inr (kind, known) ↦ rw (present, le→leb _ _ fits, known) (behind_kind kind body ptr fits)
    ]
  ]
])

-- The blocks of the ICD.
abbrev pub block_ids : List (Bytes × ProductKind)
block_ids =
    (68 ∷ 82 ∷ 69 ∷ 70 ∷ [], ref)
    ∷ (68 ∷ 86 ∷ 69 ∷ 76 ∷ [], vel)
    ∷ (68 ∷ 83 ∷ 87 ∷ 32 ∷ [], spectrum_width)
    ∷ (68 ∷ 90 ∷ 68 ∷ 82 ∷ [], zdr)
    ∷ (68 ∷ 80 ∷ 72 ∷ 73 ∷ [], phi)
    ∷ (68 ∷ 82 ∷ 72 ∷ 79 ∷ [], rho)
    ∷ (68 ∷ 67 ∷ 70 ∷ 80 ∷ [], cfp)
    ∷ []

abbrev pub kind_of : List (Bytes × ProductKind) → Bytes → Option ProductKind
kind_of [] id = none
kind_of ((known, kind) ∷ ids) id = if bytes_eq id known then some kind else kind_of ids id

-- The block behind its id, at `p`: the header's fields by their offsets.
abbrev pub product_data_at : Bytes → ℕ → Bytes → ProductData
product_data_at body p gates = record {
  gate_count = be_at 2 body (p + 4);
  first_gate_m = be_at 2 body (p + 6);
  gate_width_m = be_at 2 body (p + 8);
  word_size = u8_at body (p + 15);
  scale = be_at 4 body (p + 16);
  offset = be_at 4 body (p + 20);
  gates = gates;
}

-- The gates at 28, in words of 8 or 16 bits.
abbrev pub block_gates_at : Bytes → ℕ → ProductKind → Option (ProductKind × ProductData)
block_gates_at body ptr kind =
    let gate_count = be_at 2 body (ptr + 4 + 4) in
    let word_size = u8_at body (ptr + 4 + 15) in
    let size = gate_count * (word_size / 8) in
    if not (word_size == 8) && not (word_size == 16)
    then none
    else if leb (ptr + 28 + size) (length body)
    then some (kind, product_data_at body (ptr + 4) (slice body (ptr + 28) size))
    else none

-- A block by its offsets: the id at 0, the header at 4, the gates at 28.
abbrev pub product_at : Bytes → ℕ → Option (ProductKind × ProductData)
product_at body ptr =
    if ptr == 0
    then none
    else if leb (ptr + 28) (length body)
    then kind_of block_ids (slice body ptr 4) >>= block_gates_at body ptr
    else none

read_product_at-product_at :
    (body : Bytes) (ptr : ℕ) → read_product_at body ptr ≡ product_at body ptr
unfolding from_block_id from_header
read_product_at-product_at body ptr = refl

-- The parser reads exactly the block that the layout describes, and refuses all else: a pointer
-- of 0, a block that does not lie in the body, an unknown id, a word size other than 8 and 16.
pub parse_product_lem : (body : Bytes) (ptr : ℕ) → parse_product body ptr ≡ product_at body ptr
parse_product_lem body ptr = read_product_at_lem body ptr ∙ read_product_at-product_at body ptr

-- A product as the rest of the program relies on it: its gates are as many as its header says.
pub record IsWellFormed (d : ProductData) : Type 0 where
  pub word_size_known : (d.word_size ≡ 8) ⊎ (d.word_size ≡ 16)
  pub gates_complete : length d.gates ≡ d.gate_count * (d.word_size / 8)

gates_at-IsWellFormed :
    (body : Bytes) (p : ℕ) (k kind : ProductKind) (h : ProductHeader) (d : ProductData)
    → gates_at body p k h ≡ some (kind, d)
    → IsWellFormed d
unfolding from_header
gates_at-IsWellFormed body p k kind h d e =
    ground (arith, length-slice body p (h.gate_count * (h.word_size / 8)))

read_product_at-IsWellFormed :
    (body : Bytes) (ptr : ℕ) (kind : ProductKind) (d : ProductData)
    → read_product_at body ptr ≡ some (kind, d)
    → IsWellFormed d
read_product_at-IsWellFormed body ptr kind d e = elim (Bool-cases (ptr == 0)) [
  | inl null ↦ cc (rw null at e)
  | inr present ↦ elim (Bool-cases (leb (ptr + 28) (length body))) [
    | inl fits ↦
        let (k, _, g) =
          bind-eq_some (from_block_id (slice body ptr 4)) _ (rw (present, fits) at e) in
        gates_at-IsWellFormed body (ptr + 28) k kind (product_header_at body (ptr + 4)) d g
    | inr over ↦ cc (rw (present, over) at e)
  ]
]

-- Whatever the parser returns is well formed.
pub parse_product-IsWellFormed :
    (body : Bytes) (ptr : ℕ) (kind : ProductKind) (d : ProductData)
    → parse_product body ptr ≡ some (kind, d)
    → IsWellFormed d
parse_product-IsWellFormed body ptr kind d e =
    read_product_at-IsWellFormed body ptr kind d (sym (read_product_at_lem body ptr) ∙ e)

-- The value of gate `i`: one byte, or two with the high one first.
abbrev pub gate_value : ProductData → ℕ → ℕ
gate_value d i =
    if d.word_size == 8
    then get_or d.gates i 0
    else get_or d.gates (i * 2) 0 * 256 + get_or d.gates (i * 2 + 1) 0

raw_gate-inside :
    (d : ProductData) (i : ℕ)
    → IsWellFormed d
    → i < d.gate_count
    → raw_gate d i ≡ some (gate_value d i)
unfolding raw_gate from_be_bytes
raw_gate-inside d i w h = ground (
  arith,
  get_elem?-eq_some d.gates i 0,
  get_elem?-eq_some d.gates (i * 2) 0,
  get_elem?-eq_some d.gates (i * 2 + 1) 0,
)

raw_gate-outside :
    (d : ProductData) (i : ℕ) → IsWellFormed d → d.gate_count ≤ i → raw_gate d i ≡ none
unfolding raw_gate
raw_gate-outside d i w h =
    ground (arith, get_elem?-eq_none d.gates i, get_elem?-eq_none d.gates (i * 2))

-- Of a well-formed product, gate `i` is read exactly when `i` is below the gate count, as the
-- big-endian value of its bytes.
pub raw_gate_lem :
    (d : ProductData) (i : ℕ)
    → IsWellFormed d
    → raw_gate d i ≡ (if ltb i d.gate_count then some (gate_value d i) else none)
raw_gate_lem d i w = elim (dec_lt i d.gate_count) [
  | yes p ↦ rw (lt→ltb i d.gate_count p) (raw_gate-inside d i w p)
  | no p ↦ rw (le→ltb i d.gate_count (omega arith)) (raw_gate-outside d i w (omega arith))
]
