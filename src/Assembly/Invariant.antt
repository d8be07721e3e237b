-- ===== src/Assembly/Invariant.antt =====
-- The assembler's invariant: one sweep for each elevation of a volume, each of its own radials.
use radar_workstation.Common.{
  ℕ, ◌<◌, ◌≡◌, refl, ap, ◌∙◌, sym, subst, Bool, true, false, ◌||◌, Option, none, some, List, [],
  ◌∷◌, ◌++◌, length, length-append, ◌==◌, if◌then◌else◌, arith, Bool-cases, Option-cases, inl, inr,
}
use radar_workstation.Decoder.Radial.{Radial}
use radar_workstation.Assembly.Volume.{Sweep, SweepBuilder, start_sweep, push_radial, close_builder}
use radar_workstation.Assembly.{
  AssemblyState, idle, awaiting_data, accumulating, VolumeAssembler, contains, close_sweep,
  close_current, route_radial, ingest_radial, accept_radial, is_idle, is_awaiting,
  is_closure_status,
}

-- Every radial of a list is of one elevation.
abbrev pub AllOf : ℕ → List Radial → Type 0
AllOf n [] = Unit {0}
AllOf n (r ∷ rs) = (r.elevation_number ≡ n) × AllOf n rs

abbrev pub IsSweep : ℕ → List Radial → Type 0
IsSweep n radials = AllOf n radials × (0 < length radials)

abbrev pub AllSweeps : List Sweep → Type 0
AllSweeps [] = Unit {0}
AllSweeps (s ∷ rest) = IsSweep s.elevation_number s.radials × AllSweeps rest

abbrev pub elevations_of : List Sweep → List ℕ
elevations_of [] = []
elevations_of (s ∷ rest) = s.elevation_number ∷ elevations_of rest

-- No elevation occurs twice.
abbrev pub Distinct : List ℕ → Type 0
Distinct [] = Unit {0}
Distinct (n ∷ ns) = (contains ns n ≡ false) × Distinct ns

abbrev pub OpenOk : List ℕ → Option SweepBuilder → Type 0
OpenOk closed none = Unit {0}
OpenOk closed (some b) =
    (contains closed b.elevation_number ≡ false) × IsSweep b.elevation_number b.radials

-- Outside `accumulating` the assembler holds no sweep.
abbrev pub RestOk : AssemblyState → Option SweepBuilder → List Sweep → Type 0
RestOk accumulating current closed = Unit {0}
RestOk _ current closed = (current ≡ none) × (closed ≡ [])

-- The sweeps held: the closed ones, and the open one on an elevation of its own.
pub record Held (es : List ℕ) (ss : List Sweep) (open_sweep : Option SweepBuilder) : Type 0 where
  pub elevations : es ≡ elevations_of ss
  pub distinct : Distinct es
  pub sweeps : AllSweeps ss
  pub current : OpenOk es open_sweep

abbrev pub Holds : VolumeAssembler → Type 0
Holds a = Held a.closed_elevations a.closed_sweeps a.current_sweep

pub record IsConsistent (a : VolumeAssembler) : Type 0 where
  pub held : Holds a
  pub rest : RestOk a.state a.current_sweep a.closed_sweeps

contains-append : (ns : List ℕ) (m n : ℕ) → contains (ns ++ m ∷ []) n ≡ (contains ns n || m == n)
unfolding contains
contains-append [] m n = ground arith
contains-append (k ∷ ns) m n = ground (arith, contains-append ns m n)

Distinct-append :
    (ns : List ℕ) (n : ℕ) → Distinct ns → contains ns n ≡ false → Distinct (ns ++ n ∷ [])
unfolding contains
Distinct-append [] n d h = (refl, tt)
Distinct-append (k ∷ ns) n d h =
    (ground (arith, contains-append ns n k), Distinct-append ns n d.1 (ground arith))

elevations_of-append :
    (ss : List Sweep) (s : Sweep)
    → elevations_of (ss ++ s ∷ []) ≡ elevations_of ss ++ s.elevation_number ∷ []
elevations_of-append [] s = refl
elevations_of-append (x ∷ ss) s = ap (◌∷◌ x.elevation_number) (elevations_of-append ss s)

AllSweeps-append :
    (ss : List Sweep) (s : Sweep)
    → AllSweeps ss
    → IsSweep s.elevation_number s.radials
    → AllSweeps (ss ++ s ∷ [])
AllSweeps-append [] s all h = (h, tt)
AllSweeps-append (x ∷ ss) s all h = (all.0, AllSweeps-append ss s all.1 h)

AllOf-append :
    (n : ℕ) (rs : List Radial) (r : Radial)
    → AllOf n rs
    → r.elevation_number ≡ n
    → AllOf n (rs ++ r ∷ [])
AllOf-append n [] r all h = (h, tt)
AllOf-append n (x ∷ rs) r all h = (all.0, AllOf-append n rs r all.1 h)

Held-close :
    {es : List ℕ} {ss : List Sweep} (b : SweepBuilder) (whole : Bool)
    → Held es ss (some b)
    → Held (es ++ b.elevation_number ∷ []) (ss ++ close_builder whole b ∷ []) none
unfolding close_builder
Held-close {es} {ss} b whole h = record {
  elevations =
      ap (λ l. l ++ b.elevation_number ∷ []) h.elevations
      ∙ sym (elevations_of-append ss (close_builder whole b));
  distinct = Distinct-append es b.elevation_number h.distinct h.current.0;
  sweeps = AllSweeps-append ss (close_builder whole b) h.sweeps h.current.1;
  current = tt;
}

Held-none :
    {es : List ℕ} {ss : List Sweep} (b : Option SweepBuilder) → Held es ss b → Held es ss none
Held-none b h = record {
  elevations = h.elevations;
  distinct = h.distinct;
  sweeps = h.sweeps;
  current = tt;
}

pub close_current-Holds :
    (whole : Bool) (a : VolumeAssembler)
    → Holds a
    → Holds (close_current whole a).0 × ((close_current whole a).0.current_sweep ≡ none)
unfolding close_current close_sweep
close_current-Holds whole a h = elim (Option-cases a.current_sweep) [
  | inl nothing ↦ rw (nothing, close_current) (h, nothing)
  | inr (b, some_b) ↦ rw (some_b, close_current) (Held-close b whole (rw some_b at h), refl)
]

Held-start :
    {es : List ℕ} {ss : List Sweep} {o : Option SweepBuilder} (r : Radial)
    → Held es ss o
    → contains es r.elevation_number ≡ false
    → Held es ss (some (start_sweep r))
unfolding start_sweep
Held-start r h fresh = record {
  elevations = h.elevations;
  distinct = h.distinct;
  sweeps = h.sweeps;
  current = (fresh, ((refl, tt), omega arith));
}

Held-push :
    {es : List ℕ} {ss : List Sweep} (r : Radial) (b : SweepBuilder)
    → Held es ss (some b)
    → r.elevation_number ≡ b.elevation_number
    → Held es ss (some (push_radial r b))
unfolding push_radial
Held-push r b h same = record {
  elevations = h.elevations;
  distinct = h.distinct;
  sweeps = h.sweeps;
  current = (
    h.current.0,
    (
      AllOf-append b.elevation_number b.radials r h.current.1.0 same,
      omega (arith, length-append b.radials (r ∷ [])),
    ),
  );
}

contains-other :
    (es : List ℕ) (m n : ℕ)
    → contains es n ≡ false
    → (m == n) ≡ false
    → contains (es ++ m ∷ []) n ≡ false
contains-other es m n h ne = rw contains-append (rw (h, ne))

route_radial-Holds :
    (r : Radial) (a : VolumeAssembler)
    → Holds a
    → contains a.closed_elevations r.elevation_number ≡ false
    → Holds (route_radial r a).0
unfolding close_sweep route_radial
route_radial-Holds r a h fresh = elim (Option-cases a.current_sweep) [
  | inl nothing ↦ rw (nothing, route_radial) (Held-start r h fresh)
  | inr (b, some_b) ↦ elim (Bool-cases (b.elevation_number == r.elevation_number)) [
    | inl same ↦ rw (some_b, route_radial) (rw same (Held-push r b (rw some_b at h) (ground arith)))
    | inr other ↦
        rw (some_b, route_radial)
          (rw other (
            Held-start r (Held-close b false (rw some_b at h)) (
              contains-other a.closed_elevations b.elevation_number r.elevation_number fresh
                other)))
  ]
]

ingest_radial-Holds :
    (r : Radial) (a : VolumeAssembler)
    → Holds a
    → contains a.closed_elevations r.elevation_number ≡ false
    → Holds (ingest_radial r a).0
unfolding ingest_radial
ingest_radial-Holds r a h fresh = elim (Bool-cases (is_closure_status r.radial_status)) [
  | inl closes ↦
      rw closes (close_current-Holds true (route_radial r a).0 (route_radial-Holds r a h fresh)).0
  | inr goes_on ↦ rw goes_on (route_radial-Holds r a h fresh)
]

state-close_current :
    (whole : Bool) (a : VolumeAssembler) → (close_current whole a).0.state ≡ a.state
unfolding close_current close_sweep
state-close_current whole a = ground arith

state-ingest_radial : (r : Radial) (a : VolumeAssembler) → (ingest_radial r a).0.state ≡ a.state
unfolding ingest_radial route_radial close_sweep
state-ingest_radial r a = ground (arith, state-close_current true (route_radial r a).0)

became_accumulating :
    (s : AssemblyState)
    → is_idle s ≡ false
    → (if is_awaiting s then accumulating else s) ≡ accumulating
became_accumulating idle h = cc
became_accumulating awaiting_data h = refl
became_accumulating accumulating h = refl

pub state-accept_radial :
    (r : Radial) (a : VolumeAssembler)
    → is_idle a.state ≡ false
    → (accept_radial r a).0.state ≡ accumulating
unfolding accept_radial
state-accept_radial r a h = state-ingest_radial r _ ∙ became_accumulating a.state h

pub accept_radial-IsConsistent :
    (r : Radial) (a : VolumeAssembler)
    → IsConsistent a
    → is_idle a.state ≡ false
    → contains a.closed_elevations r.elevation_number ≡ false
    → IsConsistent (accept_radial r a).0
unfolding accept_radial
accept_radial-IsConsistent r a v active fresh = record {
  held = ingest_radial-Holds r _ v.held fresh;
  rest =
      subst (λ s. RestOk s (accept_radial r a).0.current_sweep (accept_radial r a).0.closed_sweeps)
        (sym (state-accept_radial r a active)) tt;
}
