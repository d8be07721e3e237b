-- ===== src/Assembly/Contents.antt =====
-- No radial is made up, altered or doubled: by any weight, the radials that are held or in closed
-- volumes weigh no more than those that were fed.
pub mod Runs
use radar_workstation.Common.{
  ℕ, ◌+◌, ◌≤◌, ◌≡◌, refl, ap, ◌∙◌, sym, Bool, true, false, Option, none, some, List, [], ◌∷◌, ◌++◌,
  arith, length, length-append, Bool-cases, Option-cases, inl, inr, ◌==◌, if◌then◌else◌, leb, ◌-◌,
}
use radar_workstation.Chunk.{ChunkKind, start, intermediate, end_chunk}
use radar_workstation.Decoder.Radial.{Radial}
use radar_workstation.Decoder.Vcp.{VcpDefinition}
use radar_workstation.Assembly.Volume.{
  Sweep, SweepBuilder, VolumeStatus, complete, superseded, timed_out, AssemblyEvent, sweep_closed,
  volume_closed, late_radials_discarded, missing_start_chunk, start_sweep, push_radial,
  close_builder,
}
use radar_workstation.Assembly.{
  AssemblyState, idle, awaiting_data, accumulating, is_accumulating, VolumeAssembler, Step, ◌▹◌,
  contains, close_sweep, close_current, finish_volume, begin_new_volume, route_radial,
  ingest_radial, is_closure_status, accept_radial, ingest_all, on_start_chunk, on_chunk, on_tick,
  HashOrder, late_events, count_late, feed_radials, end_volume, note_missing_start, fresh_volume,
  Call, start_chunk, chunk, tick, site_change, step, run_calls, is_idle, new,
}
use radar_workstation.Assembly.Invariant.{IsConsistent, Holds, close_current-Holds}
use radar_workstation.Assembly.Events.{nothing_held, nothing_open, OneSite}
use radar_workstation.Assembly.Preserved.{step-IsConsistent, IsConsistent-new}

module _ (g : Radial → ℕ) where
  abbrev pub weight : List Radial → ℕ
  weight [] = 0
  weight (r ∷ rs) = g r + weight rs

  weight-append : (rs : List Radial) (r : Radial) → weight (rs ++ r ∷ []) ≡ weight rs + g r
  weight-append [] r = omega arith
  weight-append (x ∷ rs) r = omega (arith, weight-append rs r)

  abbrev pub sweep_weight : List Sweep → ℕ
  sweep_weight [] = 0
  sweep_weight (s ∷ ss) = weight s.radials + sweep_weight ss

  abbrev pub open_weight : Option SweepBuilder → ℕ
  open_weight none = 0
  open_weight (some b) = weight b.radials

  -- The radials that the assembler holds, by their weight.
  abbrev pub held : VolumeAssembler → ℕ
  held a = sweep_weight a.closed_sweeps + open_weight a.current_sweep

  -- The radials of closed volumes.
  abbrev pub closed : List AssemblyEvent → ℕ
  closed [] = 0
  closed (volume_closed v ∷ es) = sweep_weight v.sweeps + closed es
  closed (late_radials_discarded n k ∷ es) = closed es
  closed (sweep_closed s volume vcp ∷ es) = closed es
  closed (missing_start_chunk ∷ es) = closed es

  -- No more than what there was, and the weight `k` that came in, is there after a call.
  abbrev pub Within : VolumeAssembler → ℕ → Step → Type 0
  Within a k s = held s.0 + closed s.1 ≤ held a + k

  pub closed-append : (es fs : List AssemblyEvent) → closed (es ++ fs) ≡ closed es + closed fs
  closed-append [] fs = omega arith
  closed-append (volume_closed v ∷ es) fs = omega (arith, closed-append es fs)
  closed-append (late_radials_discarded n k ∷ es) fs = closed-append es fs
  closed-append (sweep_closed s volume vcp ∷ es) fs = closed-append es fs
  closed-append (missing_start_chunk ∷ es) fs = closed-append es fs

  sweep_weight-append :
      (ss : List Sweep) (s : Sweep)
      → sweep_weight (ss ++ s ∷ []) ≡ sweep_weight ss + weight s.radials
  sweep_weight-append [] s = omega arith
  sweep_weight-append (x ∷ ss) s = omega (arith, sweep_weight-append ss s)

  pub Within-▹ :
      (a : VolumeAssembler) (j k : ℕ) (s : Step) (f : VolumeAssembler → Step)
      → Within a j s
      → Within s.0 k (f s.0)
      → Within a (j + k) (s ▹ f)
  Within-▹ a j k s f h g = omega (arith, closed-append s.1 (f s.0).1)

  pub close_current-Within :
      (whole : Bool) (a : VolumeAssembler) → Within a 0 (close_current whole a)
  unfolding close_current close_sweep close_builder
  close_current-Within whole a = elim (Option-cases a.current_sweep) [
    | inl nothing ↦ rw (nothing, close_current) (omega (arith, ap open_weight nothing))
    | inr (b, some_b) ↦
        rw (some_b, close_current)
          (omega (
            arith,
            ap open_weight some_b,
            sweep_weight-append a.closed_sweeps (close_builder whole b),
          ))
  ]

  route_radial-Within : (r : Radial) (a : VolumeAssembler) → Within a (g r) (route_radial r a)
  unfolding route_radial close_sweep start_sweep push_radial close_builder
  route_radial-Within r a = elim (Option-cases a.current_sweep) [
    | inl nothing ↦ rw (nothing, route_radial) (omega (arith, ap open_weight nothing))
    | inr (b, some_b) ↦ elim (Bool-cases (b.elevation_number == r.elevation_number)) [
      | inl same ↦
          rw (some_b, route_radial)
            (rw same (omega (arith, ap open_weight some_b, weight-append b.radials r)))
      | inr other ↦
          rw (some_b, route_radial)
            (rw other (
              omega (
                arith,
                ap open_weight some_b,
                sweep_weight-append a.closed_sweeps (close_builder false b),
              )))
    ]
  ]

  close_if-Within :
      (b : Bool) (a : VolumeAssembler) → Within a 0 (if b then close_current true a else (a, []))
  close_if-Within true a = close_current-Within true a
  close_if-Within false a = omega arith

  ingest_radial-Within : (r : Radial) (a : VolumeAssembler) → Within a (g r) (ingest_radial r a)
  unfolding ingest_radial
  ingest_radial-Within r a = omega (
    arith,
    Within-▹ a (g r) 0 (route_radial r a)
        (λ b. if is_closure_status r.radial_status then close_current true b else (b, []))
        (route_radial-Within r a)
        (close_if-Within (is_closure_status r.radial_status) (route_radial r a).0),
  )

  accept_radial-Within : (r : Radial) (a : VolumeAssembler) → Within a (g r) (accept_radial r a)
  unfolding accept_radial
  accept_radial-Within r a = ingest_radial-Within r _

  ingest_all-Within :
      (rs : List Radial) (late : List (ℕ × ℕ)) (a : VolumeAssembler)
      → held (ingest_all rs late a).0 + closed (ingest_all rs late a).1 ≤ held a + weight rs
  unfolding ingest_all
  ingest_all-Within [] late a = omega arith
  ingest_all-Within (r ∷ rs) late a =
      elim (Bool-cases (contains a.closed_elevations r.elevation_number)) [
        | inl late_one ↦
            rw (late_one, ingest_all)
              (omega (arith, ingest_all-Within rs (count_late r.elevation_number late) a))
        | inr fresh ↦
            rw (fresh, ingest_all)
              (omega (
                arith,
                accept_radial-Within r a,
                ingest_all-Within rs late (accept_radial r a).0,
                closed-append (accept_radial r a).1 (ingest_all rs late (accept_radial r a).0).1,
              ))
      ]

  closed-late_events : (late : List (ℕ × ℕ)) → closed (late_events late) ≡ 0
  closed-late_events [] = refl
  closed-late_events ((n, k) ∷ late) = closed-late_events late

  pub feed_radials-Within :
      (order : HashOrder) (rs : List Radial) (a : VolumeAssembler)
      → Within a (weight rs) (feed_radials order rs a)
  unfolding feed_radials
  feed_radials-Within order rs a =
      let late = (ingest_all rs [] a).2 in
      omega (
        arith,
        ingest_all-Within rs [] a,
        closed-append (ingest_all rs [] a).1 (late_events (order.drain late)),
        closed-late_events (order.drain late),
      )
