-- ===== src/Common/Stateful.antt =====
-- A call that changes a state and may fail, and the bind that `?` is. `none` stands for a loop that
-- is out of fuel, and for a task that a panic ends.
use mathlib.Core.Path.{◌≡◌, refl}
use mathlib.Core.Logic.{◌⊎◌, inl, inr}
use mathlib.Core.Option.{Option, none, some}
use radar_workstation.Common.Outcome.{Result, ok, err}

abbrev pub Stateful : Type 0 → Type 0 → Type 0 → Type 0
Stateful E S A = S → Option (S × Result E A)

module _ {E S : Type 0} where
  abbrev pub pure : {A : Type 0} → A → Stateful E S A
  pure a s = some (s, ok a)

  abbrev pub fail : {A : Type 0} → E → Stateful E S A
  fail e s = some (s, err e)

  abbrev pub out_of_fuel : {A : Type 0} → Stateful E S A
  out_of_fuel s = none

  -- A result that a pure function gave, with `?`.
  abbrev pub of_result : {A : Type 0} → Result E A → Stateful E S A
  of_result (ok a) = pure a
  of_result (err e) = fail e

  -- What follows a call that came to its end.
  abbrev pub continue :
      {A B : Type 0} → S × Result E A → (A → Stateful E S B) → Option (S × Result E B)
  continue (s, ok a) f = f a s
  continue (s, err e) f = some (s, err e)

  infixl 5 ◌>>=◌ ◌>>◌
  abbrev pub ◌>>=◌ : {A B : Type 0} → Stateful E S A → (A → Stateful E S B) → Stateful E S B
  ◌>>=◌ m f s = elim (m s) [ none ↦ none | some r ↦ continue r f ]

  abbrev pub ◌>>◌ : {B : Type 0} → Stateful E S (Unit {0}) → Stateful E S B → Stateful E S B
  m >> k = m >>= λ _. k

  -- A chain that came to its end: its first call failed, or gave what the rest ran on.
  abbrev pub Chained :
      {A B : Type 0} → Stateful E S A → (A → Stateful E S B) → S → S → Result E B → Type 0
  Chained {A} m f s s' r =
      ((e : E) × (m s ≡ some (s', err e)) × (r ≡ err e))
      ⊎ ((a : A) × (t : S) × (m s ≡ some (t, ok a)) × (f a t ≡ some (s', r)))

  continued-Chained :
      {A B : Type 0} (m : Stateful E S A) (f : A → Stateful E S B) (s s' : S) (r : Result E B)
      (o : Option (S × Result E A))
      → m s ≡ o
      → elim o [ none ↦ none | some q ↦ continue q f ] ≡ some (s', r)
      → Chained m f s s' r
  continued-Chained m f s s' r none e h = cc
  continued-Chained m f s s' r (some (t, ok a)) e h = inr (a, t, e, h)
  continued-Chained m f s s' r (some (t, err x)) e h = inl (x, cc, cc)

  pub >>=-Chained :
      {A B : Type 0} (m : Stateful E S A) (f : A → Stateful E S B) (s s' : S) (r : Result E B)
      → (m >>= f) s ≡ some (s', r)
      → Chained m f s s' r
  >>=-Chained m f s s' r h = continued-Chained m f s s' r (m s) refl h
