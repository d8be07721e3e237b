-- ===== src/Assembly/Conservation.antt =====
-- No radial is lost or doubled: each that is fed is held, in a closed volume, or counted as late.
pub mod Runs
use native.Mathlib.Nat.{ℕ_set}
use mathlib.Core.List.{Perm, Permᴰ}
use mathlib.Core.Logic.{∥∥₁_elim}
use radar_workstation.Common.{
  ℕ, ◌+◌, ◌≡◌, refl, ap, ◌∙◌, sym, Bool, true, false, Option, none, some, List, [], ◌∷◌, ◌++◌,
  arith, length, length-append, Bool-cases, Option-cases, inl, inr, ◌==◌, if◌then◌else◌, leb, ◌-◌,
}
use radar_workstation.Chunk.{ChunkKind, start, intermediate, end_chunk}
use radar_workstation.Decoder.Radial.{Radial}
use radar_workstation.Decoder.Vcp.{VcpDefinition}
use radar_workstation.Assembly.Volume.{
  Sweep, SweepBuilder, VolumeStatus, complete, superseded, timed_out, AssemblyEvent, sweep_closed,
  volume_closed, late_radials_discarded, missing_start_chunk, start_sweep, push_radial,
  close_builder,
}
use radar_workstation.Assembly.{
  AssemblyState, idle, awaiting_data, accumulating, is_accumulating, VolumeAssembler, Step, ◌▹◌,
  contains, close_sweep, close_current, finish_volume, begin_new_volume, route_radial,
  ingest_radial, is_closure_status, accept_radial, ingest_all, on_start_chunk, on_chunk, on_tick,
  HashOrder, late_events, count_late, feed_radials, end_volume, note_missing_start, fresh_volume,
  Call, start_chunk, chunk, tick, site_change, step, run_calls, is_idle, new,
}
use radar_workstation.Assembly.Invariant.{IsConsistent, Holds, close_current-Holds}
use radar_workstation.Assembly.Events.{nothing_held, nothing_open, OneSite}
use radar_workstation.Assembly.Preserved.{step-IsConsistent, IsConsistent-new}

abbrev pub sweep_total : List Sweep → ℕ
sweep_total [] = 0
sweep_total (s ∷ ss) = length s.radials + sweep_total ss

abbrev pub open_total : Option SweepBuilder → ℕ
open_total none = 0
open_total (some b) = length b.radials

-- The radials that the assembler holds.
abbrev pub held : VolumeAssembler → ℕ
held a = sweep_total a.closed_sweeps + open_total a.current_sweep

-- The radials that leave by events: in closed volumes, and discarded as late.
abbrev pub out : List AssemblyEvent → ℕ
out [] = 0
out (volume_closed v ∷ es) = sweep_total v.sweeps + out es
out (late_radials_discarded n k ∷ es) = k + out es
out (sweep_closed s volume vcp ∷ es) = out es
out (missing_start_chunk ∷ es) = out es

abbrev pub late_total : List (ℕ × ℕ) → ℕ
late_total [] = 0
late_total ((n, k) ∷ rest) = k + late_total rest

-- `k` radials came in by a call.
abbrev pub Balanced : VolumeAssembler → ℕ → Step → Type 0
Balanced a k s = held a + k ≡ held s.0 + out s.1

pub out-append : (es fs : List AssemblyEvent) → out (es ++ fs) ≡ out es + out fs
out-append [] fs = omega arith
out-append (volume_closed v ∷ es) fs = omega (arith, out-append es fs)
out-append (late_radials_discarded n k ∷ es) fs = omega (arith, out-append es fs)
out-append (sweep_closed s volume vcp ∷ es) fs = out-append es fs
out-append (missing_start_chunk ∷ es) fs = out-append es fs

sweep_total-append :
    (ss : List Sweep) (s : Sweep) → sweep_total (ss ++ s ∷ []) ≡ sweep_total ss + length s.radials
sweep_total-append [] s = omega arith
sweep_total-append (x ∷ ss) s = omega (arith, sweep_total-append ss s)

pub Balanced-▹ :
    (a : VolumeAssembler) (j k : ℕ) (s : Step) (f : VolumeAssembler → Step)
    → Balanced a j s
    → Balanced s.0 k (f s.0)
    → Balanced a (j + k) (s ▹ f)
Balanced-▹ a j k s f h g = omega (arith, out-append s.1 (f s.0).1)

pub close_current-Balanced :
    (whole : Bool) (a : VolumeAssembler) → Balanced a 0 (close_current whole a)
unfolding close_current close_sweep close_builder
close_current-Balanced whole a = elim (Option-cases a.current_sweep) [
  | inl nothing ↦ rw (nothing, close_current) (omega (arith, ap open_total nothing))
  | inr (b, some_b) ↦
      rw (some_b, close_current)
        (omega
          (arith, ap open_total some_b, sweep_total-append a.closed_sweeps (close_builder whole b)))
]

route_radial-Balanced : (r : Radial) (a : VolumeAssembler) → Balanced a 1 (route_radial r a)
unfolding route_radial close_sweep start_sweep push_radial close_builder
route_radial-Balanced r a = elim (Option-cases a.current_sweep) [
  | inl nothing ↦ rw (nothing, route_radial) (omega (arith, ap open_total nothing))
  | inr (b, some_b) ↦ elim (Bool-cases (b.elevation_number == r.elevation_number)) [
    | inl same ↦
        rw (some_b, route_radial)
          (rw same (omega (arith, ap open_total some_b, length-append b.radials (r ∷ []))))
    | inr other ↦
        rw (some_b, route_radial)
          (rw other (
            omega (
              arith,
              ap open_total some_b,
              sweep_total-append a.closed_sweeps (close_builder false b),
            )))
  ]
]

close_if-Balanced :
    (b : Bool) (a : VolumeAssembler) → Balanced a 0 (if b then close_current true a else (a, []))
close_if-Balanced true a = close_current-Balanced true a
close_if-Balanced false a = omega arith

ingest_radial-Balanced : (r : Radial) (a : VolumeAssembler) → Balanced a 1 (ingest_radial r a)
unfolding ingest_radial
ingest_radial-Balanced r a =
    Balanced-▹ a 1 0 (route_radial r a)
      (λ b. if is_closure_status r.radial_status then close_current true b else (b, []))
      (route_radial-Balanced r a)
      (close_if-Balanced (is_closure_status r.radial_status) (route_radial r a).0)

accept_radial-Balanced : (r : Radial) (a : VolumeAssembler) → Balanced a 1 (accept_radial r a)
unfolding accept_radial
accept_radial-Balanced r a = ingest_radial-Balanced r _

late_total-count_late :
    (n : ℕ) (late : List (ℕ × ℕ)) → late_total (count_late n late) ≡ late_total late + 1
unfolding count_late
late_total-count_late n [] = omega arith
late_total-count_late n ((m, k) ∷ late) = ground (arith, late_total-count_late n late)

ingest_all-Balanced :
    (rs : List Radial) (late : List (ℕ × ℕ)) (a : VolumeAssembler)
    → held a + length rs + late_total late
      ≡ held (ingest_all rs late a).0
        + out (ingest_all rs late a).1
        + late_total (ingest_all rs late a).2
unfolding ingest_all
ingest_all-Balanced [] late a = omega arith
ingest_all-Balanced (r ∷ rs) late a =
    elim (Bool-cases (contains a.closed_elevations r.elevation_number)) [
      | inl closed ↦
          rw (closed, ingest_all)
            (omega (
              arith,
              ingest_all-Balanced rs (count_late r.elevation_number late) a,
              late_total-count_late r.elevation_number late,
            ))
      | inr fresh ↦
          rw (fresh, ingest_all)
            (omega (
              arith,
              accept_radial-Balanced r a,
              ingest_all-Balanced rs late (accept_radial r a).0,
              out-append (accept_radial r a).1 (ingest_all rs late (accept_radial r a).0).1,
            ))
    ]

out-late_events : (late : List (ℕ × ℕ)) → out (late_events late) ≡ late_total late
out-late_events [] = refl
out-late_events ((n, k) ∷ late) = omega (arith, out-late_events late)

late_total-permᴰ : {xs ys : List (ℕ × ℕ)} → Permᴰ xs ys → late_total xs ≡ late_total ys
late_total-permᴰ Permᴰ.nil = refl
late_total-permᴰ (Permᴰ.cons e p) = omega (arith, ap (λ (x : ℕ × ℕ). x.1) e, late_total-permᴰ p)
late_total-permᴰ (Permᴰ.swap e f) =
    omega (arith, ap (λ (x : ℕ × ℕ). x.1) e, ap (λ (x : ℕ × ℕ). x.1) f)
late_total-permᴰ (Permᴰ.trans p q) = late_total-permᴰ p ∙ late_total-permᴰ q

-- Iterating a `HashMap` visits each entry exactly once, in some order.
abbrev pub VisitsAll : HashOrder → Type 0
VisitsAll order = (entries : List (ℕ × ℕ)) → Perm (order.drain entries) entries

late_total-drain :
    (order : HashOrder) (late : List (ℕ × ℕ))
    → VisitsAll order
    → late_total (order.drain late) ≡ late_total late
late_total-drain order late visits = ∥∥₁_elim (visits late) (ℕ_set _ _) late_total-permᴰ

pub feed_radials-Balanced :
    (order : HashOrder) (rs : List Radial) (a : VolumeAssembler)
    → VisitsAll order
    → Balanced a (length rs) (feed_radials order rs a)
unfolding feed_radials
feed_radials-Balanced order rs a visits =
    let late = (ingest_all rs [] a).2 in
    omega (
      arith,
      ingest_all-Balanced rs [] a,
      out-append (ingest_all rs [] a).1 (late_events (order.drain late)),
      out-late_events (order.drain late),
      late_total-drain order late visits,
    )
