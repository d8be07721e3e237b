-- ===== src/State/Consistency.antt =====
-- What an update leaves in the state: its consistency, and what its answer says.
use radar_workstation.Common.{
  ℕ, suc, ◌+◌, ◌≤◌, ◌<◌, length, ltb, ◌≡◌, refl, ap, sym, ◌∙◌, subst, List, [], ◌∷◌, Option, none,
  some, Bool, true, false, Option-cases, Bool-cases, inl, inr, arith,
}
use radar_workstation.Common.OrderedMap.{
  OrderedMap, get, insert, IsOrdered, Entries, IsOrdered-insert, Entries-insert, Entries-get,
  Entries-map,
}
use radar_workstation.Assembly.Volume.{VolumeId}
use radar_workstation.Compute.{SweepGrid, rank}
use radar_workstation.State.{
  changed, next_revision, reported, report_of, with_radar, DisplaySweep, RadarState, GriddedSweep,
  StateUpdate, sweep_gridded, derived_computed, volume_summarized, info, is_other_vcp, enter_vcp,
  replaces, display, apply_sweep, is_older, insert_grids, apply_derived, is_complete, apply_summary,
  apply, apply_event, apply_loop, AppState,
}

-- What an update comes to: a result of which `P` holds; it has none only with the largest revision.
abbrev pub Outcome : (RadarState × Bool → Type 0) → RadarState → Option (RadarState × Bool) → Type 0
Outcome P s none = 18446744073709551615 ≤ s.revision
Outcome P s (some r) = P r

pub changed-Outcome :
    (P : RadarState × Bool → Type 0) (s t : RadarState)
    → t.revision ≡ s.revision
    → P (record t { revision = t.revision + 1 }, true)
    → Outcome P s (changed (next_revision t))
unfolding changed next_revision
changed-Outcome P s t same holds = elim (Bool-cases (ltb t.revision 18446744073709551615)) [
  | inl fits ↦ rw fits holds
  | inr over ↦ rw over (ground (arith, same))
]

-- A sweep stands under its elevation number, and is of the current VCP.
abbrev pub IsCurrent : Option ℕ → ℕ → DisplaySweep → Type 0
IsCurrent vcp k d = (d.elevation_number ≡ k) × (vcp ≡ some d.vcp_number)

abbrev pub IsOfProduct : ℕ → SweepGrid → Type 0
IsOfProduct k g = rank g.product ≡ k

-- Both maps are ordered, with one entry for a key at most; the sweeps are of the current VCP, and
-- there are derived grids only with their volume.
abbrev pub IsConsistent : RadarState → Type 0
IsConsistent s =
    IsOrdered s.sweeps
    × Entries (IsCurrent s.current_vcp) s.sweeps
    × IsOrdered s.derived
    × Entries IsOfProduct s.derived
    × (s.derived_volume ≡ none → s.derived ≡ [])

current-same :
    (n m : ℕ) (current : Option ℕ)
    → is_other_vcp n current ≡ false
    → current ≡ some m
    → some n ≡ some m
current-same n m none same known = cc
current-same n m (some c) same known = ground arith

enter_vcp-other :
    (n : ℕ) (s : RadarState)
    → is_other_vcp n s.current_vcp ≡ true
    → enter_vcp n s
      ≡ record s { sweeps = []; derived = []; derived_volume = none; current_vcp = some n }
unfolding enter_vcp
enter_vcp-other n s other = rw other

pub enter_vcp-same :
    (n : ℕ) (s : RadarState)
    → is_other_vcp n s.current_vcp ≡ false
    → enter_vcp n s ≡ record s { current_vcp = some n }
unfolding enter_vcp
enter_vcp-same n s same = rw same

enter_vcp-IsConsistent :
    (n : ℕ) (s : RadarState)
    → IsConsistent s
    → IsConsistent (enter_vcp n s) × ((enter_vcp n s).current_vcp ≡ some n)
enter_vcp-IsConsistent n s is =
    let Entered : RadarState → Type 0 = λ t. IsConsistent t × (t.current_vcp ≡ some n) in
    elim (Bool-cases (is_other_vcp n s.current_vcp)) [
      | inl other ↦
          subst Entered (sym (enter_vcp-other n s other)) ((tt, tt, tt, tt, λ _. refl), refl)
      | inr same ↦
          let sweeps =
            Entries-map (IsCurrent s.current_vcp) (IsCurrent (some n))
              (λ k d h. (h.0, current-same n d.vcp_number s.current_vcp same h.1)) s.sweeps is.1 in
          subst Entered (sym (enter_vcp-same n s same)) ((is.0, sweeps, is.2, is.3, is.4), refl)
    ]

insert_grids-IsOrdered :
    (gs : List SweepGrid) (m : OrderedMap SweepGrid)
    → IsOrdered m
    → Entries IsOfProduct m
    → IsOrdered (insert_grids gs m) × Entries IsOfProduct (insert_grids gs m)
unfolding insert_grids
insert_grids-IsOrdered [] m ordered products = (ordered, products)
insert_grids-IsOrdered (g ∷ gs) m ordered products =
    insert_grids-IsOrdered gs (insert (rank g.product) g m)
      (IsOrdered-insert (rank g.product) g m ordered)
      (Entries-insert IsOfProduct (rank g.product) g m refl products)

-- The three arms, by their test.
pub apply_sweep-true :
    (g : GriddedSweep) (now : ℕ) (s : RadarState)
    → let t = enter_vcp g.vcp_number s in
      replaces g.volume (get g.elevation_number t.sweeps) ≡ true
      → apply_sweep g now s
        ≡ changed (
            next_revision
              (record t { sweeps = insert g.elevation_number (display g now) t.sweeps }))
unfolding apply_sweep
apply_sweep-true g now s newer = rw newer

pub apply_sweep-false :
    (g : GriddedSweep) (now : ℕ) (s : RadarState)
    → let t = enter_vcp g.vcp_number s in
      replaces g.volume (get g.elevation_number t.sweeps) ≡ false
      → apply_sweep g now s ≡ some (t, false)
unfolding apply_sweep
apply_sweep-false g now s older = rw older

pub enter_vcp-revision : (n : ℕ) (s : RadarState) → (enter_vcp n s).revision ≡ s.revision
enter_vcp-revision n s = elim (Bool-cases (is_other_vcp n s.current_vcp)) [
  | inl other ↦ ap (λ t. t.revision) (enter_vcp-other n s other)
  | inr same ↦ ap (λ t. t.revision) (enter_vcp-same n s same)
]

-- A consistent state, at most one revision on.
abbrev Next : RadarState → RadarState × Bool → Type 0
Next s (t, changed_it) = IsConsistent t × (t.revision ≤ s.revision + 1)

apply_sweep-Next :
    (g : GriddedSweep) (now : ℕ) (s : RadarState)
    → IsConsistent s
    → Outcome (Next s) s (apply_sweep g now s)
apply_sweep-Next g now s is =
    let t = enter_vcp g.vcp_number s in
    let k = g.elevation_number in
    let (entered, current) = enter_vcp-IsConsistent g.vcp_number s is in
    let revision = enter_vcp-revision g.vcp_number s in
    elim (Bool-cases (replaces g.volume (get k t.sweeps))) [
      | inl newer ↦ subst (Outcome (Next s) s) (sym (apply_sweep-true g now s newer)) (
          changed-Outcome (Next s) s (record t { sweeps = insert k (display g now) t.sweeps })
            revision
            (
              (
                IsOrdered-insert k (display g now) t.sweeps entered.0,
                Entries-insert (IsCurrent t.current_vcp) k (display g now) t.sweeps (refl, current)
                    entered.1,
                entered.2,
                entered.3,
                entered.4,
              ),
              omega (arith, revision),
            ))
      | inr older ↦
          subst (Outcome (Next s) s) (sym (apply_sweep-false g now s older))
            (entered, omega (arith, revision))
    ]

apply-Next :
    (u : StateUpdate) (now : ℕ) (s : RadarState)
    → IsConsistent s
    → Outcome (Next s) s (apply u now s)
unfolding apply apply_derived apply_summary
apply-Next (sweep_gridded g) now s is = apply_sweep-Next g now s is
apply-Next (derived_computed volume vcp grids) now s is =
    elim (Bool-cases (is_older volume s.derived_volume)) [
      | inl older ↦ rw older (is, omega arith)
      | inr newer ↦
          let inserted = insert_grids-IsOrdered grids [] tt tt in
          rw newer (
            changed-Outcome (Next s) s
              (record s { derived = insert_grids grids []; derived_volume = some volume }) refl
              ((is.0, is.1, inserted.0, inserted.1, λ none_left. cc), omega arith))
    ]
apply-Next (volume_summarized summary) now s is = elim (Bool-cases (is_complete summary.status)) [
  | inl whole ↦ rw whole (
      changed-Outcome (Next s) s (record s { last_complete = some summary }) refl (is, omega arith))
  | inr partial ↦ rw partial (is, omega arith)
]
apply-Next (info e) now s is = (is, omega arith)

-- What a run of updates comes to: a consistent state, unless the revision overflows on the way.
abbrev pub LoopOutcome : ℕ → Option AppState → Type 0
LoopOutcome bound none = 18446744073709551615 < bound
LoopOutcome bound (some b) = IsConsistent b.radar

apply_event-none :
    (u : StateUpdate) (now : ℕ) (a : AppState)
    → apply u now a.radar ≡ none
    → apply_event u now a ≡ none
unfolding apply_event
apply_event-none u now a h = ap (with_radar (reported now (report_of u) a)) h

apply_event-some :
    (u : StateUpdate) (now : ℕ) (a : AppState) (r : RadarState × Bool)
    → apply u now a.radar ≡ some r
    → (b : AppState) × (apply_event u now a ≡ some (b, r.1)) × (b.radar ≡ r.0)
unfolding apply_event
apply_event-some u now a r h = (
  record (reported now (report_of u) a) { radar = r.0 },
  ap (with_radar (reported now (report_of u) a)) h,
  refl,
)

module _ (u : StateUpdate) (now : ℕ) (us : List (ℕ × StateUpdate)) (a : AppState) where
  apply_loop-none : apply_event u now a ≡ none → apply_loop ((now, u) ∷ us) a ≡ none
  unfolding apply_loop
  apply_loop-none event = ground arith

  apply_loop-some :
      (r : AppState × Bool)
      → apply_event u now a ≡ some r
      → apply_loop ((now, u) ∷ us) a ≡ apply_loop us r.0
  unfolding apply_loop
  apply_loop-some r event = ground arith

LoopOutcome-later : (m n : ℕ) (o : Option AppState) → m ≤ n → LoopOutcome m o → LoopOutcome n o
LoopOutcome-later m n none later over = omega (arith, over)
LoopOutcome-later m n (some b) later is = is

-- After any updates to a consistent state, such as a new one, the sweeps and the derived grids stand
-- in the order of their keys, one for a key, each under its own elevation number or product; every
-- sweep is of the current VCP; and without a volume for the derived grids there are none. The run
-- has no end state only if the revision and the number of the updates together pass the `u64`.
pub apply_loop-IsConsistent :
    (us : List (ℕ × StateUpdate)) (a : AppState)
    → IsConsistent a.radar
    → LoopOutcome (a.radar.revision + length us) (apply_loop us a)
unfolding apply_loop
apply_loop-IsConsistent [] a is = is
apply_loop-IsConsistent ((now, u) ∷ us) a is =
    let bound = a.radar.revision + suc (length us) in
    elim (Option-cases (apply u now a.radar)) [
      | inl over ↦
          let full = subst (Outcome (Next a.radar) a.radar) over (apply-Next u now a.radar is) in
          subst (LoopOutcome bound)
            (sym (apply_loop-none u now us a (apply_event-none u now a over))) (omega (arith, full))
      | inr (r, applied) ↦
          let (b, event, same) = apply_event-some u now a r applied in
          let next = subst (Outcome (Next a.radar) a.radar) applied (apply-Next u now a.radar is) in
          let on : b.radar.revision ≤ a.radar.revision + 1 =
            subst (λ t. t.revision ≤ a.radar.revision + 1) (sym same) next.1 in
          subst (LoopOutcome bound) (sym (apply_loop-some u now us a (b, r.1) event)) (
            LoopOutcome-later (b.radar.revision + length us) bound (apply_loop us b)
              (omega (arith, on))
              (apply_loop-IsConsistent us b (subst IsConsistent (sym same) next.0)))
    ]

replaces-false :
    (volume : VolumeId) (o : Option DisplaySweep)
    → replaces volume o ≡ false
    → (d : DisplaySweep) × (o ≡ some d)
replaces-false volume none h = cc
replaces-false volume (some d) h = (d, refl)

-- A sweep that stays means that the VCP is the current one.
enter_vcp-kept :
    (n k : ℕ) (volume : VolumeId) (s : RadarState)
    → IsConsistent s
    → replaces volume (get k (enter_vcp n s).sweeps) ≡ false
    → enter_vcp n s ≡ s
unfolding get
enter_vcp-kept n k volume s is older = elim (Bool-cases (is_other_vcp n s.current_vcp)) [
  | inl other ↦
      let cleared : get k (enter_vcp n s).sweeps ≡ none =
        ap (λ t. get k t.sweeps) (enter_vcp-other n s other) in
      absurd (ground arith)
  | inr same ↦
      let entered = enter_vcp-same n s same in
      let (d, found) =
        replaces-false volume (get k s.sweeps)
          (ap (λ t. replaces volume (get k t.sweeps)) (sym entered) ∙ older) in
      let vcp = (Entries-get (IsCurrent s.current_vcp) k d s.sweeps is.1 found).1 in
      let current : some n ≡ s.current_vcp =
        current-same n d.vcp_number s.current_vcp same vcp ∙ sym vcp in
      entered ∙ ap (λ c. record s { current_vcp = c }) current
]

-- What the answer of an update says: the next revision, or no change at all.
abbrev pub Changed : RadarState → RadarState × Bool → Type 0
Changed s (t, true) = t.revision ≡ s.revision + 1
Changed s (t, false) = t ≡ s

-- An update of a consistent state answers that it changed something exactly when it counts the
-- revision up by one; else it leaves the state as it was, the current VCP and the sweeps included.
-- It has no answer only if the revision is the largest `u64`.
pub apply-Changed :
    (u : StateUpdate) (now : ℕ) (s : RadarState)
    → IsConsistent s
    → Outcome (Changed s) s (apply u now s)
unfolding apply apply_derived apply_summary
apply-Changed (sweep_gridded g) now s is =
    let n = g.vcp_number in
    let k = g.elevation_number in
    let t = enter_vcp n s in
    elim (Bool-cases (replaces g.volume (get k t.sweeps))) [
      | inl newer ↦ subst (Outcome (Changed s) s) (sym (apply_sweep-true g now s newer)) (
          changed-Outcome (Changed s) s (record t { sweeps = insert k (display g now) t.sweeps })
            (enter_vcp-revision n s) (ap (λ m. m + 1) (enter_vcp-revision n s)))
      | inr older ↦
          subst (Outcome (Changed s) s) (sym (apply_sweep-false g now s older))
            (enter_vcp-kept n k g.volume s is older)
    ]
apply-Changed (derived_computed volume vcp grids) now s is =
    elim (Bool-cases (is_older volume s.derived_volume)) [
      | inl older ↦ rw older refl
      | inr newer ↦ rw newer (
          changed-Outcome (Changed s) s
            (record s { derived = insert_grids grids []; derived_volume = some volume }) refl refl)
    ]
apply-Changed (volume_summarized summary) now s is =
    elim (Bool-cases (is_complete summary.status)) [
      | inl whole ↦
          rw whole
            (changed-Outcome (Changed s) s (record s { last_complete = some summary }) refl refl)
      | inr partial ↦ rw partial refl
    ]
apply-Changed (info e) now s is = refl
