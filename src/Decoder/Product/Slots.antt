-- ===== src/Decoder/Product/Slots.antt =====
-- The product map as a finite map, and its iterator.
use radar_workstation.Common.{
  Bool-cases, ==_iff, if◌then◌else◌, ◌==◌, ℕ, zero, suc, ◌+◌, ◌≤◌, ◌<◌, ◌≡◌, ◌≢◌, ◌↔◌, ◌⊎◌, inl,
  inr, refl, ap, ◌∙◌, sym, Option, none, some, List, [], ◌∷◌, length, get_or, get_or-set_self,
  get_or-set_ne, length-set, arith, Option-cases, true, inl, inr,
}
use radar_workstation.Decoder.Product.{
  ProductKind, ref, ProductData, ProductMap, new, insert, get, contains_key, slot, index,
  all_product_kinds, product_kind_count, scan, next, iter, collect, ProductMapIter,
}

index_bound : (kind : ProductKind) → index kind < product_kind_count
unfolding index
index_bound ref = omega arith
index_bound _ = omega arith

index_injective : (j k : ProductKind) → index j ≡ index k → j ≡ k
unfolding index
index_injective j k h = ground arith

-- The array of slots has its seven places.
abbrev pub IsFull : ProductMap → Type 0
IsFull m = length m.slots ≡ product_kind_count

pub insert-IsFull :
    (kind : ProductKind) (d : ProductData) (m : ProductMap) → IsFull m → IsFull (insert kind d m)
unfolding insert
insert-IsFull kind d m h = length-set m.slots (index kind) (some d) ∙ h

pub get-new : (kind : ProductKind) → get new kind ≡ none
unfolding get index
get-new ref = refl
get-new _ = refl

-- What was inserted under a kind is found there, and every other kind is left alone.
pub get-insert :
    (kind other : ProductKind) (d : ProductData) (m : ProductMap)
    → IsFull m
    → (get (insert kind d m) kind ≡ some d)
      × (kind ≢ other → get (insert kind d m) other ≡ get m other)
unfolding insert get
get-insert kind other d m h = (
  get_or-set_self m.slots (index kind) (some d) none (omega (arith, index_bound kind)),
  λ ne.
      get_or-set_ne m.slots (index kind) (index other) (some d) none
        (λ e. ne (index_injective kind other e)),
)

abbrev add_present :
    ProductKind
    → Option ProductData
    → List (ProductKind × ProductData)
    → List (ProductKind × ProductData)
add_present k none rest = rest
add_present k (some d) rest = (k, d) ∷ rest

-- The entries of those kinds of a list that have a product, in the order of the list.
abbrev pub present : ProductMap → List ProductKind → List (ProductKind × ProductData)
present m [] = []
present m (k ∷ ks) = add_present k (get m k) (present m ks)

-- The entries from a slot on.
entries : ProductMap → ℕ → ℕ → List (ProductKind × ProductData)
entries m zero idx = []
entries m (suc rounds) idx =
    add_present (get_or all_product_kinds idx ref) (slot m idx) (entries m rounds (idx + 1))

next-scan :
    (m : ProductMap) (idx rounds : ℕ)
    → idx + rounds ≡ product_kind_count
    → next (record { map = m; idx = idx }) ≡ scan rounds m idx
unfolding next
next-scan m idx rounds e = ap (λ k. scan k m idx) (omega arith)

abbrev visit :
    ℕ → Option (ProductKind × ProductData) × ProductMapIter → List (ProductKind × ProductData)
visit fuel r = elim r.0 [ some entry ↦ entry ∷ collect fuel r.1 | none ↦ [] ]

collect-suc :
    (fuel : ℕ) (m : ProductMap) (idx rounds : ℕ)
    → idx + rounds ≡ product_kind_count
    → collect (suc fuel) (record { map = m; idx = idx }) ≡ visit fuel (scan rounds m idx)
unfolding collect
collect-suc fuel m idx rounds e = ap (visit fuel) (next-scan m idx rounds e)

module _ (m : ProductMap) (idx rounds : ℕ) where
  scan-empty : slot m idx ≡ none → scan (suc rounds) m idx ≡ scan rounds m (idx + 1)
  unfolding scan
  scan-empty h = rw (h, scan)

  scan-full :
      (d : ProductData)
      → slot m idx ≡ some d
      → scan (suc rounds) m idx
        ≡ (some (get_or all_product_kinds idx ref, d), record { map = m; idx = idx + 1 })
  unfolding scan
  scan-full d h = rw (h, scan)

-- `fuel` calls of `next` see the entries from the iterator's slot on.
collect-entries :
    (rounds fuel : ℕ) (m : ProductMap) (idx : ℕ)
    → rounds ≤ fuel
    → idx + rounds ≡ product_kind_count
    → collect fuel (record { map = m; idx = idx }) ≡ entries m rounds idx
unfolding entries scan
collect-entries zero zero m idx h e = unfold collect in refl
collect-entries zero (suc fuel) m idx h e = collect-suc fuel m idx 0 e
collect-entries (suc rounds) zero m idx h e = absurd (omega arith)
collect-entries (suc rounds) (suc fuel) m idx h e = elim (Option-cases (slot m idx)) [
  | inl empty ↦
      collect-suc fuel m idx (suc rounds) e
      ∙ rw empty (
          ap (visit fuel) (scan-empty m idx rounds empty)
          ∙ sym (collect-suc fuel m (idx + 1) rounds (omega arith))
          ∙ collect-entries rounds (suc fuel) m (idx + 1) (omega arith) (omega arith))
  | inr (d, full) ↦
      collect-suc fuel m idx (suc rounds) e
      ∙ ap (visit fuel) (scan-full m idx rounds d full)
      ∙ rw full (
          ap (◌∷◌ (get_or all_product_kinds idx ref, d))
            (collect-entries rounds fuel m (idx + 1) (omega arith) (omega arith)))
]

-- Iteration visits exactly the kinds that have a product, each once, in the enum's order.
pub iter_lem : (m : ProductMap) → collect product_kind_count (iter m) ≡ present m all_product_kinds
unfolding iter get index entries
iter_lem m = collect-entries product_kind_count product_kind_count m 0 (omega arith) refl

-- `contains_key` and `keys` agree with `get`.
pub contains_key_iff :
    (m : ProductMap) (kind : ProductKind)
    → (contains_key m kind ≡ true) ↔ ((d : ProductData) × (get m kind ≡ some d))
unfolding contains_key get
contains_key_iff m kind = ground arith

pub ProductKind-discrete : Discrete ProductKind
ProductKind-discrete = hlevel

some_eq : (d e : ProductData) → some d ≡ some e → d ≡ e
some_eq d e h = cc

-- What is found under any kind after an insertion, and where it came from.
pub get-insert-cases :
    (kind other : ProductKind) (d e : ProductData) (m : ProductMap)
    → IsFull m
    → get (insert kind d m) other ≡ some e
    → ((kind ≡ other) × (d ≡ e)) ⊎ (get m other ≡ some e)
get-insert-cases kind other d e m full h = elim (ProductKind-discrete kind other) [
  | yes same ↦ inl (
    same,
    some_eq d e (sym (get-insert kind other d m full).0 ∙ ap (get (insert kind d m)) same ∙ h),
  )
  | no differ ↦ inr (sym ((get-insert kind other d m full).1 differ) ∙ h)
]

-- A map of seven slots is a finite map: what was inserted under a kind is found there, and every other kind is
-- left alone.
pub get-insert_if :
    (kind other : ProductKind) (d : ProductData) (m : ProductMap)
    → IsFull m
    → get (insert kind d m) other ≡ (if index kind == index other then some d else get m other)
get-insert_if kind other d m full = elim (Bool-cases (index kind == index other)) [
  | inl same ↦ rw same (
      ap (get (insert kind d m))
        (sym (index_injective kind other ((==_iff (index kind) (index other)).0 same)))
      ∙ (get-insert kind other d m full).0)
  | inr distinct ↦ rw distinct ((get-insert kind other d m full).1 λ e. ground (arith, ap index e))
]
