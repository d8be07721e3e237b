-- ===== src/Ingest/Rounds/Moves/Folders.antt =====
-- The newest of the folders, and what next_target decides on them.
use radar_workstation.Common.{
  ℕ, ◌+◌, ◌-◌, ◌≡◌, ◌≤◌, ◌<◌, ◌⊎◌, inl, inr, refl, ap, sym, ◌∙◌, subst, some, List, [], ◌∷◌, Bool,
  true, false, ◌&&◌, ◌||◌, ◌==◌, all, any, Bool-cases, arith, leb, ltb, ltb→lt, leb→le, le→leb,
  if◌then◌else◌, ==_iff,
}
use radar_workstation.Ingest.Listing.{newest_or}
use radar_workstation.Ingest.Poller.{continue_polling, re_anchor, anchor_after}
use radar_workstation.Ingest.Rounds.Moves.{NoneAfter, IsNewest}

or_right : (a b : Bool) → b ≡ true → (a || b) ≡ true
or_right true b h = refl
or_right false b h = h

-- The newest folder, and what lies below it.
pub NoneAfter-later :
    (m n : ℕ) (folders : List ℕ) → m ≤ n → NoneAfter m folders → NoneAfter n folders
NoneAfter-later m n [] later h = refl
NoneAfter-later m n (f ∷ folders) later h =
    let first : leb f m ≡ true = ground arith in
    let below : leb f n ≡ true = le→leb f n (omega (arith, leb→le f m first, later)) in
    let rest = NoneAfter-later m n folders later (ground arith) in rw (below, rest)

IsNewest-later :
    (f m : ℕ) (folders : List ℕ) → leb f m ≡ true → IsNewest m folders → IsNewest m (f ∷ folders)
IsNewest-later f m folders below newest = (
  ap (λ b. b && all (λ x. leb x m) folders) below ∙ newest.0,
  or_right (f == m) (any (λ x. x == m) folders) newest.1,
)

IsNewest-first :
    (f m : ℕ) (folders : List ℕ) → leb f m ≡ false → IsNewest m folders → IsNewest f (f ∷ folders)
IsNewest-first f m folders above newest =
    let later = NoneAfter-later m f folders (ground arith) newest.0 in
    let itself : leb f f ≡ true = le→leb f f (omega arith) in
    let same : (f == f) ≡ true = (==_iff f f).1 refl in
    (
      ap (λ b. b && all (λ x. leb x f) folders) itself ∙ later,
      ap (λ b. b || any (λ x. x == f) folders) same,
    )

newest_or-IsNewest :
    (d f : ℕ) (folders : List ℕ) → IsNewest (newest_or d (f ∷ folders)) (f ∷ folders)
unfolding newest_or
newest_or-IsNewest d f [] =
    (ap (λ b. b && true) (le→leb f f (omega arith)), ap (λ b. b || false) ((==_iff f f).1 refl))
newest_or-IsNewest d f (g ∷ folders) =
    let m = newest_or d (g ∷ folders) in
    let rest = newest_or-IsNewest d g folders in
    elim (Bool-cases (leb f m)) [
      | inl below ↦
          subst (λ n. IsNewest n (f ∷ g ∷ folders)) (ap (λ b. if b then m else f) (sym below))
            (IsNewest-later f m (g ∷ folders) below rest)
      | inr above ↦
          subst (λ n. IsNewest n (f ∷ g ∷ folders)) (ap (λ b. if b then m else f) (sym above))
            (IsNewest-first f m (g ∷ folders) above rest)
    ]

-- What is done at the limit with the folders that were listed.
pub anchor_after-cases :
    (target : ℕ) (folders : List ℕ)
    → ((anchor_after target (some folders) ≡ continue_polling) × NoneAfter (target + 1) folders)
      ⊎ ((newest : ℕ) × (anchor_after target (some folders) ≡ re_anchor (newest - 1))
          × IsNewest newest folders
          × (target + 1 < newest))
unfolding anchor_after newest_or
anchor_after-cases target [] =
    let low : leb (target - 1) target ≡ true = le→leb _ _ (omega arith) in
    let same : ltb target target ≡ false = ground arith in inl (rw low (rw same refl), refl)
anchor_after-cases target (f ∷ folders) =
    let newest = newest_or target (f ∷ folders) in
    let is = newest_or-IsNewest target f folders in
    elim (Bool-cases (ltb (target + 1) newest)) [
      | inl ahead ↦
          let below : leb (newest - 1) target ≡ false = ground arith in
          let past : ltb target (newest - 1) ≡ true = ground arith in
          inr (newest, rw below (rw past refl), is, ltb→lt _ _ ahead)
      | inr near ↦
          let low : leb (newest - 1) target ≡ true = ground arith in
          let same : ltb target target ≡ false = ground arith in
          inl (
            rw low (rw same refl),
            NoneAfter-later newest (target + 1) (f ∷ folders) (ground arith) is.0,
          )
    ]
