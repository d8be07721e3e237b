-- ===== src/Assembly/Contents/Runs.antt =====
-- The weight of the radials over the calls of the owning task, and over a run of them.
use radar_workstation.Common.{
  ℕ, ◌+◌, ◌≤◌, ◌≡◌, ap, false, Option, none, some, List, [], ◌∷◌, arith, Bool-cases, inl, inr,
}
use radar_workstation.Chunk.{ChunkKind, start, intermediate, end_chunk}
use radar_workstation.Decoder.Radial.{Radial}
use radar_workstation.Decoder.Vcp.{VcpDefinition}
use radar_workstation.Assembly.Volume.{VolumeStatus, complete, superseded, timed_out}
use radar_workstation.Assembly.{
  is_accumulating, VolumeAssembler, ◌▹◌, close_current, finish_volume, begin_new_volume,
  on_start_chunk, on_chunk, on_tick, HashOrder, feed_radials, end_volume, note_missing_start, Call,
  start_chunk, chunk, tick, site_change, step, run_calls, is_idle, new,
}
use radar_workstation.Assembly.Invariant.{IsConsistent, Holds, close_current-Holds}
use radar_workstation.Assembly.Events.{nothing_held, nothing_open, OneSite}
use radar_workstation.Assembly.Preserved.{step-IsConsistent, IsConsistent-new}
use radar_workstation.Assembly.Conservation
use radar_workstation.Assembly.Conservation.{VisitsAll}
use radar_workstation.Assembly.Conservation.Runs.{total_fed, run_calls-Balanced}
use radar_workstation.Assembly.Contents.{
  weight, sweep_weight, open_weight, held, closed, Within, closed-append, Within-▹,
  close_current-Within, feed_radials-Within,
}
use radar_workstation.Assembly.Preserved.{feed-IsConsistent}

module _ (g : Radial → ℕ) where
  end_volume-Within :
      (status : VolumeStatus) (a : VolumeAssembler)
      → Holds a
      → Within g a 0 (end_volume status a) × (held g (end_volume status a).0 ≡ 0)
  unfolding end_volume finish_volume
  end_volume-Within status a h =
      let taken = close_current false a in
      let gone : open_weight g taken.0.current_sweep ≡ 0 =
        ap (open_weight g) (close_current-Holds false a h).1 in
      (
        omega (
          arith,
          close_current-Within g false a,
          gone,
          closed-append g taken.1 ((finish_volume status taken.0).1),
        ),
        omega (arith, gone),
      )

  note_missing_start-Within : (a : VolumeAssembler) → Within g a 0 (note_missing_start a)
  unfolding note_missing_start
  note_missing_start-Within a = elim (Bool-cases (is_idle a.state)) [
    | inl at_rest ↦ rw at_rest (omega arith)
    | inr active ↦ rw active (omega arith)
  ]

  begin_new_volume-Within :
      (a : VolumeAssembler) → IsConsistent a → Within g a 0 (begin_new_volume a)
  unfolding begin_new_volume
  begin_new_volume-Within a v = elim (Bool-cases (is_accumulating a.state)) [
    | inl acc ↦
        let ended = end_volume-Within superseded a v.held in
        rw acc (omega (arith, ended.0, ended.1, closed-append g (end_volume superseded a).1 []))
    | inr other ↦ rw other (
        omega (
          arith,
          ap (sweep_weight g) (nothing_held a.state a.current_sweep other v.rest),
          ap (open_weight g) (nothing_open a.state a.current_sweep a.closed_sweeps other v.rest),
        ))
  ]

  -- What a call feeds.
  abbrev pub fed_weight : Call → ℕ
  fed_weight (chunk start rs now) = 0
  fed_weight (chunk intermediate rs now) = weight g rs
  fed_weight (chunk end_chunk rs now) = weight g rs
  fed_weight _ = 0

  abbrev pub total_weight : List Call → ℕ
  total_weight [] = 0
  total_weight (c ∷ cs) = fed_weight c + total_weight cs

  on_start_chunk-Within :
      (vcp : Option VcpDefinition) (now : ℕ) (a : VolumeAssembler)
      → IsConsistent a
      → Within g a 0 (on_start_chunk vcp now a)
  unfolding on_start_chunk
  on_start_chunk-Within none now a v =
      let noted = record a { last_activity = some now } in
      omega (
        arith,
        begin_new_volume-Within noted (record { held = v.held; rest = v.rest }),
        closed-append g (begin_new_volume noted).1 [],
      )
  on_start_chunk-Within (some w) now a v =
      let noted = record a { last_activity = some now } in
      omega (
        arith,
        begin_new_volume-Within noted (record { held = v.held; rest = v.rest }),
        closed-append g (begin_new_volume noted).1 [],
      )

  -- An `-I` chunk, and the first part of an `-E` chunk.
  feed-Within :
      (order : HashOrder) (rs : List Radial) (a : VolumeAssembler)
      → Within g a (weight g rs) (note_missing_start a ▹ feed_radials order rs)
  feed-Within order rs a =
      let noted = note_missing_start a in
      let feeding = feed_radials-Within g order rs noted.0 in
      let both =
        Within-▹ g a 0 (weight g rs) noted (feed_radials order rs) (note_missing_start-Within a)
          feeding in
      omega (arith, both)

  on_chunk-Within :
      (order : HashOrder) (kind : ChunkKind) (rs : List Radial) (now : ℕ) (a : VolumeAssembler)
      → IsConsistent a
      → Within g a (fed_weight (chunk kind rs now)) (on_chunk order kind rs now a)
  unfolding on_chunk
  on_chunk-Within order start rs now a v =
      begin_new_volume-Within (record a { last_activity = some now })
        (record { held = v.held; rest = v.rest })
  on_chunk-Within order intermediate rs now a v =
      feed-Within order rs (record a { last_activity = some now })
  on_chunk-Within order end_chunk rs now a v =
      let noted = record a { last_activity = some now } in
      let fed = note_missing_start noted ▹ feed_radials order rs in
      omega (
        arith,
        feed-Within order rs noted,
        (end_volume-Within complete fed.0 (feed-IsConsistent order rs now a v).held).0,
        closed-append g fed.1 (end_volume complete fed.0).1,
      )

  on_tick-Within : (now : ℕ) (a : VolumeAssembler) → IsConsistent a → Within g a 0 (on_tick now a)
  unfolding on_tick
  on_tick-Within now a v = ground (arith, (end_volume-Within timed_out a v.held).0)

  pub run-Within :
      (order : HashOrder) (calls : List Call) (a : VolumeAssembler)
      → IsConsistent a
      → OneSite calls
      → Within g a (total_weight calls) (run_calls order calls a)
  unfolding run_calls step
  run-Within order [] a v h = omega arith
  run-Within order (start_chunk vcp now ∷ cs) a v h =
      Within-▹ g a 0 (total_weight cs) (on_start_chunk vcp now a) (run_calls order cs)
        (on_start_chunk-Within vcp now a v)
        (run-Within order cs _ (step-IsConsistent order (start_chunk vcp now) a v) h)
  run-Within order (chunk kind rs now ∷ cs) a v h =
      Within-▹ g a (fed_weight (chunk kind rs now)) (total_weight cs) (on_chunk order kind rs now a)
        (run_calls order cs) (on_chunk-Within order kind rs now a v)
        (run-Within order cs _ (step-IsConsistent order (chunk kind rs now) a v) h)
  run-Within order (tick now ∷ cs) a v h =
      Within-▹ g a 0 (total_weight cs) (on_tick now a) (run_calls order cs) (on_tick-Within now a v)
        (run-Within order cs _ (step-IsConsistent order (tick now) a v) h)
  run-Within order (site_change ∷ cs) a v h = absurd h

-- Over any calls on one site, if the hash map of late radials is iterated with each entry visited
-- once, every radial fed by an `-I` or an `-E` chunk is accounted for exactly once. By any weight of
-- radials, such as the count of those that equal a given one, those that are held by the assembler
-- or are in a closed volume weigh no more than those that were fed: none is made up, altered or
-- doubled. And all others are counted by a late discard: the numbers of the held, of those in closed
-- volumes and of the discarded ones add up to the number fed.
pub run_calls-Accounted :
    (g : Radial → ℕ) (order : HashOrder) (timeout : ℕ) (calls : List Call)
    → VisitsAll order
    → OneSite calls
    → let ran = run_calls order calls (new timeout) in
      (held g ran.0 + closed g ran.1 ≤ total_weight g calls)
      × (total_fed calls ≡ Conservation.held ran.0 + Conservation.out ran.1)
run_calls-Accounted g order timeout calls visits one = (
  omega (arith, run-Within g order calls (new timeout) (IsConsistent-new timeout) one),
  run_calls-Balanced order timeout calls visits one,
)
