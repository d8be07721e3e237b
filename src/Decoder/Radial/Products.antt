-- ===== src/Decoder/Radial/Products.antt =====
-- The product pointers of a record: what the loop over them reads, and what it stores.
use mathlib.Core.Path.{subst₂}
use radar_workstation.Common.{
  ℕ, zero, suc, ◌+◌, ◌*◌, ◌≡◌, ◌≢◌, refl, ap, sym, subst, ◌∙◌, Option, some, none, Bytes, List, [],
  ◌∷◌, ◌++◌, arith, Option-cases, inl, inr,
}
use radar_workstation.Decoder.Cursor.Reads.{Reads, Reads-bind, Reads-pure, Reads-read_u32_be, be_at}
use radar_workstation.Decoder.Product.{ProductKind, ProductData, ProductMap, parse_product, get}
use radar_workstation.Decoder.Product.Gates.{product_at, parse_product_lem}
use radar_workstation.Decoder.Product.Slots.{IsFull, insert-IsFull, get-insert, get-insert-cases}
use radar_workstation.Decoder.Radial.{insert_parsed, read_products}

-- The 32-bit pointers from a position on.
abbrev pub pointers_at : ℕ → Bytes → ℕ → List ℕ
pointers_at zero bs p = []
pointers_at (suc n) bs p = be_at 4 bs p ∷ pointers_at n bs (p + 4)

-- What the loop stores: each pointer's block in turn.
abbrev pub stored : Bytes → ProductMap → List ℕ → ProductMap
stored body m [] = m
stored body m (ptr ∷ ptrs) = stored body (insert_parsed m (parse_product body ptr)) ptrs

-- The loop takes four bytes for each pointer.
pub Reads-read_products :
    (body : Bytes) (n : ℕ) (m : ProductMap)
    → Reads (n * 4) (λ bs p. stored body m (pointers_at n bs p)) (read_products body n m)
unfolding read_products
Reads-read_products body zero m = Reads-pure m
Reads-read_products body (suc n) m =
    let size : 4 + n * 4 ≡ suc n * 4 = omega arith in
    subst
      (λ k.
        Reads k (λ bs p. stored body m (pointers_at (suc n) bs p)) (read_products body (suc n) m))
      size
      (Reads-bind Reads-read_u32_be
        λ ptr. Reads-read_products body n (insert_parsed m (parse_product body ptr)))

insert_parsed-IsFull :
    (m : ProductMap) (o : Option (ProductKind × ProductData))
    → IsFull m
    → IsFull (insert_parsed m o)
unfolding insert_parsed
insert_parsed-IsFull m none h = h
insert_parsed-IsFull m (some (kind, d)) h = insert-IsFull kind d m h

-- A property of the stored products, kept by each block that has it.
pub record AllProducts (P : ProductKind → ProductData → Type 0) (m : ProductMap) : Type 0 where
  pub at : (kind : ProductKind) (d : ProductData) → get m kind ≡ some d → P kind d

module _ (P : ProductKind → ProductData → Type 0) (body : Bytes)
    (parsed : (ptr : ℕ) (kind : ProductKind) (d : ProductData)
      → parse_product body ptr ≡ some (kind, d)
      → P kind d) where
  insert_parsed-AllProducts :
      (m : ProductMap) (ptr : ℕ)
      → IsFull m
      → AllProducts P m
      → AllProducts P (insert_parsed m (parse_product body ptr))
  unfolding insert_parsed
  insert_parsed-AllProducts m ptr full all = elim (Option-cases (parse_product body ptr)) [
    | inl absent ↦ rw absent all
    | inr ((kind, d), found) ↦ rw found (record {
      at = λ other e h. elim (get-insert-cases kind other d e m full h) [
        | inl (same, eq) ↦ subst₂ P same eq (parsed ptr kind d found)
        | inr old ↦ all.at other e old
      ];
    })
  ]

  pub stored-AllProducts :
      (m : ProductMap) (ptrs : List ℕ)
      → IsFull m
      → AllProducts P m
      → AllProducts P (stored body m ptrs)
  stored-AllProducts m [] full all = all
  stored-AllProducts m (ptr ∷ ptrs) full all =
      stored-AllProducts (insert_parsed m (parse_product body ptr)) ptrs
        (insert_parsed-IsFull m (parse_product body ptr) full)
        (insert_parsed-AllProducts m ptr full all)

-- No block of the list is of this kind.
abbrev pub NoneIs : Bytes → ProductKind → List ℕ → Type 0
NoneIs body kind [] = Unit {0}
NoneIs body kind (ptr ∷ ptrs) =
    ((d : ProductData) → product_at body ptr ≢ some (kind, d)) × NoneIs body kind ptrs

module _ (body : Bytes) (kind : ProductKind) where
  get-insert_parsed :
      (m : ProductMap) (ptr : ℕ)
      → IsFull m
      → ((d : ProductData) → parse_product body ptr ≢ some (kind, d))
      → get (insert_parsed m (parse_product body ptr)) kind ≡ get m kind
  unfolding insert_parsed
  get-insert_parsed m ptr full ne = elim (Option-cases (parse_product body ptr)) [
    | inl absent ↦ rw absent
    | inr ((other, d), found) ↦
        rw found ((get-insert other kind d m full).1 λ e. ne d (found ∙ ap (λ k. some (k, d)) e))
  ]

  -- Blocks of other kinds leave the product alone.
  pub get-stored_frame :
      (ptrs : List ℕ) (m : ProductMap)
      → IsFull m
      → NoneIs body kind ptrs
      → get (stored body m ptrs) kind ≡ get m kind
  get-stored_frame [] m full h = refl
  get-stored_frame (ptr ∷ ptrs) m full h =
      get-stored_frame ptrs (insert_parsed m (parse_product body ptr))
        (insert_parsed-IsFull m (parse_product body ptr) full) h.1
      ∙ get-insert_parsed m ptr full (λ d e. h.0 d (sym (parse_product_lem body ptr) ∙ e))

  -- The last block of its kind is kept.
  pub get-stored_last :
      (before : List ℕ) (ptr : ℕ) (after : List ℕ) (m : ProductMap) (d : ProductData)
      → IsFull m
      → parse_product body ptr ≡ some (kind, d)
      → NoneIs body kind after
      → get (stored body m (before ++ ptr ∷ after)) kind ≡ some d
  get-stored_last [] ptr after m d full found h =
      get-stored_frame after (insert_parsed m (parse_product body ptr))
        (insert_parsed-IsFull m (parse_product body ptr) full) h
      ∙ rw found (unfold insert_parsed in (get-insert kind kind d m full).0)
  get-stored_last (first ∷ before) ptr after m d full found h =
      get-stored_last before ptr after (insert_parsed m (parse_product body first)) d
        (insert_parsed-IsFull m (parse_product body first) full) found h
