-- ===== src/Common/OrderedMap.antt =====
-- `BTreeMap`: the entries in the order of their keys, which are numbers or stand for theirs.
use mathlib.Core.Path.{◌≡◌, sym, subst}
use mathlib.Core.Logic.{inl, inr}
use mathlib.Core.Bool.{false}
use mathlib.Core.List.{List, [], ◌∷◌, map}
use mathlib.Core.Option.{Option, none, some}
use Prim.Native.Nat.{ℕ, ◌<◌}
use native.Mathlib.Omega.{arith}
use radar_workstation.Common.Bools.{ltb, ◌==◌, if◌then◌else◌, Bool-cases}

abbrev pub OrderedMap {ℓ} : Type ℓ → Type ℓ
OrderedMap V = List (ℕ × V)

module _ {ℓ} {V : Type ℓ} where
  unfoldable pub get : ℕ → OrderedMap V → Option V
  get k [] = none
  get k ((j, v) ∷ m) = if k == j then some v else get k m

  -- A key that is there gets the new value.
  unfoldable pub insert : ℕ → V → OrderedMap V → OrderedMap V
  insert k v [] = (k, v) ∷ []
  insert k v ((j, u) ∷ m) =
      let rest = insert k v m in
      if ltb k j then (k, v) ∷ (j, u) ∷ m else if k == j then (k, v) ∷ m else (j, u) ∷ rest

  abbrev pub values : OrderedMap V → List V
  values m = map (λ e. e.1) m

  -- Every key is above `k`, and they ascend.
  abbrev pub Ascending : ℕ → OrderedMap V → Type 0
  Ascending k [] = Unit {0}
  Ascending k ((j, v) ∷ m) = (k < j) × Ascending j m

  abbrev pub IsOrdered : OrderedMap V → Type 0
  IsOrdered [] = Unit {0}
  IsOrdered ((j, v) ∷ m) = Ascending j m

  -- Every entry has the property.
  abbrev pub Entries : (ℕ → V → Type 0) → OrderedMap V → Type 0
  Entries P [] = Unit {0}
  Entries P ((j, v) ∷ m) = P j v × Entries P m

  pub get-insert_self : (k : ℕ) (v : V) (m : OrderedMap V) → get k (insert k v m) ≡ some v
  unfolding get insert
  get-insert_self k v [] = ground arith
  get-insert_self k v ((j, u) ∷ m) = let ih = get-insert_self k v m in ground arith

  pub get-insert_ne :
      (k i : ℕ) (v : V) (m : OrderedMap V) → (i == k) ≡ false → get i (insert k v m) ≡ get i m
  unfolding get insert
  get-insert_ne k i v [] h = ground arith
  get-insert_ne k i v ((j, u) ∷ m) h = let ih = get-insert_ne k i v m h in ground arith

  Ascending-insert :
      (a k : ℕ) (v : V) (m : OrderedMap V) → a < k → Ascending a m → Ascending a (insert k v m)
  unfolding insert
  Ascending-insert a k v [] below h = (below, tt)
  Ascending-insert a k v ((j, u) ∷ m) below h = let ih = Ascending-insert j k v m in ground arith

  pub IsOrdered-insert : (k : ℕ) (v : V) (m : OrderedMap V) → IsOrdered m → IsOrdered (insert k v m)
  unfolding insert
  IsOrdered-insert k v [] h = tt
  IsOrdered-insert k v ((j, u) ∷ m) h = let ih = Ascending-insert j k v m in ground arith

  pub Entries-insert :
      (P : ℕ → V → Type 0) (k : ℕ) (v : V) (m : OrderedMap V)
      → P k v
      → Entries P m
      → Entries P (insert k v m)
  unfolding insert
  Entries-insert P k v [] new h = (new, tt)
  Entries-insert P k v ((j, u) ∷ m) new h =
      let ih = Entries-insert P k v m new h.1 in
      elim (Bool-cases (ltb k j)) [
        | inl below ↦ rw below (new, h)
        | inr above ↦ elim (Bool-cases (k == j)) [
          | inl same ↦ rw (above, same) (new, h.1)
          | inr other ↦ rw (above, other) (h.0, ih)
        ]
      ]

  pub Entries-get :
      (P : ℕ → V → Type 0) (k : ℕ) (v : V) (m : OrderedMap V)
      → Entries P m
      → get k m ≡ some v
      → P k v
  unfolding get
  Entries-get P k v [] h found = cc
  Entries-get P k v ((j, u) ∷ m) h found = elim (Bool-cases (k == j)) [
    | inl same ↦
        let keys : k ≡ j = ground arith in
        let both : u ≡ v = ground arith in subst (λ i. P i v) (sym keys) (subst (P j) both h.0)
    | inr other ↦ Entries-get P k v m h.1 (ground arith)
  ]

  pub Entries-map :
      (P Q : ℕ → V → Type 0)
      → ((k : ℕ) (v : V) → P k v → Q k v)
      → (m : OrderedMap V) → Entries P m
      → Entries Q m
  Entries-map P Q f [] h = tt
  Entries-map P Q f ((j, u) ∷ m) h = (f j u h.0, Entries-map P Q f m h.1)
