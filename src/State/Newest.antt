-- ===== src/State/Newest.antt =====
-- A newer sweep stays when an update is of an older volume.
use radar_workstation.Common.{
  [], ℕ, ◌≡◌, refl, ap, sym, ◌∙◌, subst, some, true, false, ◌==◌, Bool-cases, inl, inr, arith,
  ==_iff,
}
use radar_workstation.Common.OrderedMap.{OrderedMap, get, insert, get-insert_self, get-insert_ne}
use radar_workstation.Assembly.Volume.{VolumeId}
use radar_workstation.State.{
  DisplaySweep, RadarState, GriddedSweep, StateUpdate, sweep_gridded, derived_computed,
  volume_summarized, info, volume_le, is_other_vcp, enter_vcp, replaces, display, apply_sweep,
  insert_grids, is_older, apply_derived, is_complete, apply_summary, apply,
}
use radar_workstation.State.Consistency.{
  Outcome, changed-Outcome, enter_vcp-revision, enter_vcp-same, apply_sweep-true, apply_sweep-false,
}

-- A volume that is not before another.
abbrev pub NotBefore : VolumeId → DisplaySweep → Type 0
NotBefore volume d = volume_le volume d.volume ≡ true

volume_le_refl : (v : VolumeId) → volume_le v v ≡ true
unfolding volume_le
volume_le_refl v = ground arith

-- The elevation has a sweep that is not before this one.
abbrev pub Kept : ℕ → DisplaySweep → RadarState → Type 0
Kept k d t = (e : DisplaySweep) × (get k t.sweeps ≡ some e) × NotBefore d.volume e

insert-NotBefore :
    (g : GriddedSweep) (now k : ℕ) (d : DisplaySweep) (m : OrderedMap DisplaySweep)
    → replaces g.volume (get g.elevation_number m) ≡ true
    → get k m ≡ some d
    → (e : DisplaySweep) × (get k (insert g.elevation_number (display g now) m) ≡ some e)
      × NotBefore d.volume e
insert-NotBefore g now k d m newer found = elim (Bool-cases (k == g.elevation_number)) [
  | inl here ↦
      let i = g.elevation_number in
      let keys : k ≡ i = (==_iff k i).0 here in
      let there : get i m ≡ some d = ap (λ j. get j m) (sym keys) ∙ found in
      (
        display g now,
        ap (λ j. get j (insert i (display g now) m)) keys ∙ get-insert_self i (display g now) m,
        ap (replaces g.volume) (sym there) ∙ newer,
      )
  | inr elsewhere ↦ (
    d,
    get-insert_ne g.elevation_number k (display g now) m elsewhere ∙ found,
    volume_le_refl d.volume,
  )
]

apply_sweep-NotBefore :
    (g : GriddedSweep) (now : ℕ) (s : RadarState) (k : ℕ) (d : DisplaySweep)
    → is_other_vcp g.vcp_number s.current_vcp ≡ false
    → get k s.sweeps ≡ some d
    → Outcome (λ r. Kept k d r.0) s (apply_sweep g now s)
apply_sweep-NotBefore g now s k d same found =
    let i = g.elevation_number in
    let sweeps : (enter_vcp g.vcp_number s).sweeps ≡ s.sweeps =
      ap (λ t. t.sweeps) (enter_vcp-same g.vcp_number s same) in
    let there = ap (get k) sweeps ∙ found in
    elim (Bool-cases (replaces g.volume (get i (enter_vcp g.vcp_number s).sweeps))) [
      | inl newer ↦
          let t = enter_vcp g.vcp_number s in
          subst (Outcome (λ r. Kept k d r.0) s) (sym (apply_sweep-true g now s newer)) (
            changed-Outcome (λ r. Kept k d r.0) s
              (record t { sweeps = insert i (display g now) t.sweeps })
              (enter_vcp-revision g.vcp_number s) (insert-NotBefore g now k d t.sweeps newer there))
      | inr older ↦
          subst (Outcome (λ r. Kept k d r.0) s) (sym (apply_sweep-false g now s older))
            (d, there, volume_le_refl d.volume)
    ]

-- An update that is not of another VCP never puts an older volume's sweep in the place of a newer
-- one: an elevation that has a sweep has one after it, of the same volume or of a later one. It
-- gives no state only if the revision is the largest `u64`.
pub apply-NotBefore :
    (u : StateUpdate) (now : ℕ) (s : RadarState) (k : ℕ) (d : DisplaySweep)
    → ((g : GriddedSweep) → u ≡ sweep_gridded g → is_other_vcp g.vcp_number s.current_vcp ≡ false)
    → get k s.sweeps ≡ some d
    → Outcome (λ r. Kept k d r.0) s (apply u now s)
unfolding apply apply_derived apply_summary
apply-NotBefore (sweep_gridded g) now s k d same found =
    apply_sweep-NotBefore g now s k d (same g refl) found
apply-NotBefore (derived_computed volume vcp grids) now s k d same found =
    let kept : Kept k d s = (d, found, volume_le_refl d.volume) in
    elim (Bool-cases (is_older volume s.derived_volume)) [
      | inl older ↦ rw older kept
      | inr newer ↦ rw newer (
          changed-Outcome (λ r. Kept k d r.0) s
            (record s { derived = insert_grids grids []; derived_volume = some volume }) refl kept)
    ]
apply-NotBefore (volume_summarized summary) now s k d same found =
    let kept : Kept k d s = (d, found, volume_le_refl d.volume) in
    elim (Bool-cases (is_complete summary.status)) [
      | inl whole ↦ rw whole (
          changed-Outcome (λ r. Kept k d r.0) s (record s { last_complete = some summary }) refl
            kept)
      | inr partial ↦ rw partial kept
    ]
apply-NotBefore (info e) now s k d same found = (d, found, volume_le_refl d.volume)
