-- ===== src/Assembly/Conservation/Runs.antt =====
-- The balance of the radials over the calls of the owning task, and over a run of them.
use radar_workstation.Common.{
  ℕ, ◌+◌, ◌≡◌, ap, false, Option, none, some, List, [], ◌∷◌, arith, length, Bool-cases, inl, inr,
}
use radar_workstation.Chunk.{ChunkKind, start, intermediate, end_chunk}
use radar_workstation.Decoder.Radial.{Radial}
use radar_workstation.Decoder.Vcp.{VcpDefinition}
use radar_workstation.Assembly.Volume.{VolumeStatus, complete, superseded, timed_out}
use radar_workstation.Assembly.{
  is_accumulating, VolumeAssembler, ◌▹◌, close_current, finish_volume, begin_new_volume,
  on_start_chunk, on_chunk, on_tick, HashOrder, feed_radials, end_volume, note_missing_start, Call,
  start_chunk, chunk, tick, site_change, step, run_calls, is_idle, new,
}
use radar_workstation.Assembly.Invariant.{IsConsistent, Holds, close_current-Holds}
use radar_workstation.Assembly.Events.{nothing_held, nothing_open, OneSite}
use radar_workstation.Assembly.Preserved.{step-IsConsistent, IsConsistent-new}
use radar_workstation.Assembly.Conservation.{
  sweep_total, open_total, held, out, Balanced, out-append, Balanced-▹, close_current-Balanced,
  feed_radials-Balanced, VisitsAll,
}
use radar_workstation.Assembly.Preserved.{feed-IsConsistent}

end_volume-Balanced :
    (status : VolumeStatus) (a : VolumeAssembler)
    → Holds a
    → Balanced a 0 (end_volume status a) × (held (end_volume status a).0 ≡ 0)
unfolding end_volume finish_volume
end_volume-Balanced status a h =
    let taken = close_current false a in
    let gone : open_total taken.0.current_sweep ≡ 0 =
      ap open_total (close_current-Holds false a h).1 in
    (
      omega (
        arith,
        close_current-Balanced false a,
        gone,
        out-append taken.1 ((finish_volume status taken.0).1),
      ),
      omega (arith, gone),
    )

note_missing_start-Balanced : (a : VolumeAssembler) → Balanced a 0 (note_missing_start a)
unfolding note_missing_start
note_missing_start-Balanced a = elim (Bool-cases (is_idle a.state)) [
  | inl at_rest ↦ rw at_rest (omega arith)
  | inr active ↦ rw active (omega arith)
]

begin_new_volume-Balanced :
    (a : VolumeAssembler) → IsConsistent a → Balanced a 0 (begin_new_volume a)
unfolding begin_new_volume
begin_new_volume-Balanced a v = elim (Bool-cases (is_accumulating a.state)) [
  | inl acc ↦
      let ended = end_volume-Balanced superseded a v.held in
      rw acc (omega (arith, ended.0, ended.1, out-append (end_volume superseded a).1 []))
  | inr other ↦ rw other (
      omega (
        arith,
        ap sweep_total (nothing_held a.state a.current_sweep other v.rest),
        ap open_total (nothing_open a.state a.current_sweep a.closed_sweeps other v.rest),
      ))
]

-- The radials that a call feeds; a start chunk's are metadata and are not read.
abbrev pub fed_count : Call → ℕ
fed_count (chunk start rs now) = 0
fed_count (chunk intermediate rs now) = length rs
fed_count (chunk end_chunk rs now) = length rs
fed_count _ = 0

abbrev pub total_fed : List Call → ℕ
total_fed [] = 0
total_fed (c ∷ cs) = fed_count c + total_fed cs

on_start_chunk-Balanced :
    (vcp : Option VcpDefinition) (now : ℕ) (a : VolumeAssembler)
    → IsConsistent a
    → Balanced a 0 (on_start_chunk vcp now a)
unfolding on_start_chunk
on_start_chunk-Balanced none now a v =
    let noted = record a { last_activity = some now } in
    omega (
      arith,
      begin_new_volume-Balanced noted (record { held = v.held; rest = v.rest }),
      out-append (begin_new_volume noted).1 [],
    )
on_start_chunk-Balanced (some w) now a v =
    let noted = record a { last_activity = some now } in
    omega (
      arith,
      begin_new_volume-Balanced noted (record { held = v.held; rest = v.rest }),
      out-append (begin_new_volume noted).1 [],
    )

-- An `-I` chunk, and the first part of an `-E` chunk.
feed-Balanced :
    (order : HashOrder) (rs : List Radial) (a : VolumeAssembler)
    → VisitsAll order
    → Balanced a (length rs) (note_missing_start a ▹ feed_radials order rs)
feed-Balanced order rs a visits =
    let noted = note_missing_start a in
    let feeding = feed_radials-Balanced order rs noted.0 visits in
    let both =
      Balanced-▹ a 0 (length rs) noted (feed_radials order rs) (note_missing_start-Balanced a)
        feeding in
    omega (arith, both)

on_chunk-Balanced :
    (order : HashOrder) (kind : ChunkKind) (rs : List Radial) (now : ℕ) (a : VolumeAssembler)
    → VisitsAll order
    → IsConsistent a
    → Balanced a (fed_count (chunk kind rs now)) (on_chunk order kind rs now a)
unfolding on_chunk
on_chunk-Balanced order start rs now a visits v =
    begin_new_volume-Balanced (record a { last_activity = some now })
      (record { held = v.held; rest = v.rest })
on_chunk-Balanced order intermediate rs now a visits v =
    feed-Balanced order rs (record a { last_activity = some now }) visits
on_chunk-Balanced order end_chunk rs now a visits v =
    let noted = record a { last_activity = some now } in
    let fed = note_missing_start noted ▹ feed_radials order rs in
    omega (
      arith,
      feed-Balanced order rs noted visits,
      (end_volume-Balanced complete fed.0 (feed-IsConsistent order rs now a v).held).0,
      out-append fed.1 (end_volume complete fed.0).1,
    )

on_tick-Balanced : (now : ℕ) (a : VolumeAssembler) → IsConsistent a → Balanced a 0 (on_tick now a)
unfolding on_tick
on_tick-Balanced now a v = ground (arith, (end_volume-Balanced timed_out a v.held).0)

run-Balanced :
    (order : HashOrder) (calls : List Call) (a : VolumeAssembler)
    → VisitsAll order
    → IsConsistent a
    → OneSite calls
    → Balanced a (total_fed calls) (run_calls order calls a)
unfolding run_calls step
run-Balanced order [] a visits v h = omega arith
run-Balanced order (start_chunk vcp now ∷ cs) a visits v h =
    Balanced-▹ a 0 (total_fed cs) (on_start_chunk vcp now a) (run_calls order cs)
      (on_start_chunk-Balanced vcp now a v)
      (run-Balanced order cs _ visits (step-IsConsistent order (start_chunk vcp now) a v) h)
run-Balanced order (chunk kind rs now ∷ cs) a visits v h =
    Balanced-▹ a (fed_count (chunk kind rs now)) (total_fed cs) (on_chunk order kind rs now a)
      (run_calls order cs) (on_chunk-Balanced order kind rs now a visits v)
      (run-Balanced order cs _ visits (step-IsConsistent order (chunk kind rs now) a v) h)
run-Balanced order (tick now ∷ cs) a visits v h =
    Balanced-▹ a 0 (total_fed cs) (on_tick now a) (run_calls order cs) (on_tick-Balanced now a v)
      (run-Balanced order cs _ visits (step-IsConsistent order (tick now) a v) h)
run-Balanced order (site_change ∷ cs) a visits v h = absurd h

-- The numbers balance.
pub run_calls-Balanced :
    (order : HashOrder) (timeout : ℕ) (calls : List Call)
    → VisitsAll order
    → OneSite calls
    → total_fed calls
      ≡ held (run_calls order calls (new timeout)).0 + out (run_calls order calls (new timeout)).1
run_calls-Balanced order timeout calls visits h =
    omega (arith, run-Balanced order calls (new timeout) visits (IsConsistent-new timeout) h)
