-- ===== src/Assembly/Preserved.antt =====
-- Every method of the assembler keeps its invariant.
use radar_workstation.Common.{
  ℕ, ◌≡◌, refl, ap, ◌∙◌, sym, true, false, Option, none, some, List, [], ◌∷◌, arith, Bool-cases,
  inl, inr,
}
use radar_workstation.Chunk.{ChunkKind, start, intermediate, end_chunk}
use radar_workstation.Decoder.Radial.{Radial}
use radar_workstation.Decoder.Vcp.{VcpDefinition}
use radar_workstation.Assembly.Volume.{SweepBuilder, Sweep, VolumeStatus, complete, timed_out}
use radar_workstation.Assembly.{
  AssemblyState, idle, awaiting_data, accumulating, VolumeAssembler, contains, close_current,
  finish_volume, begin_new_volume, accept_radial, ingest_all, on_start_chunk, on_chunk, on_tick,
  HashOrder, feed_radials, end_volume, note_missing_start, reset, new, count_late, is_idle, ◌▹◌,
  Call, start_chunk, chunk, tick, site_change, step, run_calls,
}
use radar_workstation.Assembly.Invariant.{
  IsConsistent, elevations_of, RestOk, close_current-Holds, accept_radial-IsConsistent,
  state-accept_radial,
}

rest_of_empty :
    (s : AssemblyState) {o : Option SweepBuilder} {ss : List Sweep}
    → o ≡ none
    → ss ≡ []
    → RestOk s o ss
rest_of_empty idle h k = (h, k)
rest_of_empty awaiting_data h k = (h, k)
rest_of_empty accumulating h k = tt

rest_of_idle :
    (s : AssemblyState) {o : Option SweepBuilder} {ss : List Sweep}
    → is_idle s ≡ true
    → RestOk s o ss
    → (o ≡ none) × (ss ≡ [])
rest_of_idle idle i h = h
rest_of_idle awaiting_data i h = h
rest_of_idle accumulating i h = cc

IsConsistent-empty :
    (a : VolumeAssembler)
    → a.closed_elevations ≡ []
    → a.closed_sweeps ≡ []
    → a.current_sweep ≡ none
    → IsConsistent a
IsConsistent-empty a e s c = record {
  held = record {
    elevations = e ∙ sym (ap elevations_of s);
    distinct = rw e tt;
    sweeps = rw s tt;
    current = rw c tt;
  };
  rest = rest_of_empty a.state c s;
}

-- A new assembler is consistent.
pub IsConsistent-new : (timeout : ℕ) → IsConsistent (new timeout)
IsConsistent-new timeout = IsConsistent-empty (new timeout) refl refl refl

ingest_all-IsConsistent :
    (rs : List Radial) (late : List (ℕ × ℕ)) (a : VolumeAssembler)
    → IsConsistent a
    → is_idle a.state ≡ false
    → IsConsistent (ingest_all rs late a).0
unfolding ingest_all
ingest_all-IsConsistent [] late a v active = v
ingest_all-IsConsistent (r ∷ rs) late a v active =
    elim (Bool-cases (contains a.closed_elevations r.elevation_number)) [
      | inl closed ↦
          rw (closed, ingest_all)
            (ingest_all-IsConsistent rs (count_late r.elevation_number late) a v active)
      | inr fresh ↦
          rw (fresh, ingest_all)
            (ingest_all-IsConsistent rs late (accept_radial r a).0
              (accept_radial-IsConsistent r a v active fresh)
              (ap is_idle (state-accept_radial r a active)))
    ]

finish_volume-IsConsistent :
    (status : VolumeStatus) (a : VolumeAssembler)
    → a.current_sweep ≡ none
    → IsConsistent (finish_volume status a).0
unfolding finish_volume
finish_volume-IsConsistent status a h = IsConsistent-empty _ refl refl h

end_volume-IsConsistent :
    (status : VolumeStatus) (a : VolumeAssembler)
    → IsConsistent a
    → IsConsistent (end_volume status a).0
unfolding end_volume
end_volume-IsConsistent status a v =
    finish_volume-IsConsistent status (close_current false a).0
      (close_current-Holds false a v.held).1

begin_new_volume-IsConsistent : (a : VolumeAssembler) → IsConsistent (begin_new_volume a).0
unfolding begin_new_volume
begin_new_volume-IsConsistent a = IsConsistent-empty _ refl refl refl

note_missing_start-IsConsistent :
    (a : VolumeAssembler)
    → IsConsistent a
    → IsConsistent (note_missing_start a).0 × (is_idle (note_missing_start a).0.state ≡ false)
unfolding note_missing_start
note_missing_start-IsConsistent a v = elim (Bool-cases (is_idle a.state)) [
  | inl at_rest ↦
      rw at_rest (record { held = v.held; rest = rest_of_idle a.state at_rest v.rest }, refl)
  | inr active ↦ rw active (v, active)
]

on_start_chunk-IsConsistent :
    (vcp : Option VcpDefinition) (now : ℕ) (a : VolumeAssembler)
    → IsConsistent (on_start_chunk vcp now a).0
unfolding on_start_chunk begin_new_volume
on_start_chunk-IsConsistent none now a = IsConsistent-empty _ refl refl refl
on_start_chunk-IsConsistent (some v) now a = IsConsistent-empty _ refl refl refl

pub feed-IsConsistent :
    (order : HashOrder) (rs : List Radial) (now : ℕ) (a : VolumeAssembler)
    → IsConsistent a
    → IsConsistent
        (note_missing_start (record a { last_activity = some now }) ▹ feed_radials order rs).0
unfolding feed_radials
feed-IsConsistent order rs now a v =
    let noted =
      note_missing_start-IsConsistent (record a { last_activity = some now })
        (record { held = v.held; rest = v.rest }) in
    ingest_all-IsConsistent rs [] _ noted.0 noted.1

on_chunk-IsConsistent :
    (order : HashOrder) (kind : ChunkKind) (rs : List Radial) (now : ℕ) (a : VolumeAssembler)
    → IsConsistent a
    → IsConsistent (on_chunk order kind rs now a).0
unfolding on_chunk
on_chunk-IsConsistent order start rs now a v = begin_new_volume-IsConsistent _
on_chunk-IsConsistent order intermediate rs now a v = feed-IsConsistent order rs now a v
on_chunk-IsConsistent order end_chunk rs now a v =
    end_volume-IsConsistent complete _ (feed-IsConsistent order rs now a v)

on_tick-IsConsistent :
    (now : ℕ) (a : VolumeAssembler) → IsConsistent a → IsConsistent (on_tick now a).0
unfolding on_tick
on_tick-IsConsistent now a v = ground (arith, end_volume-IsConsistent timed_out a v)

pub step-IsConsistent :
    (order : HashOrder) (c : Call) (a : VolumeAssembler)
    → IsConsistent a
    → IsConsistent (step order c a).0
unfolding step reset
step-IsConsistent order (start_chunk vcp now) a v = on_start_chunk-IsConsistent vcp now a
step-IsConsistent order (chunk kind rs now) a v = on_chunk-IsConsistent order kind rs now a v
step-IsConsistent order (tick now) a v = on_tick-IsConsistent now a v
step-IsConsistent order site_change a v = IsConsistent-empty _ refl refl refl

run-keeps :
    (order : HashOrder) (calls : List Call) (a : VolumeAssembler)
    → IsConsistent a
    → IsConsistent (run_calls order calls a).0
unfolding run_calls
run-keeps order [] a v = v
run-keeps order (c ∷ cs) a v = run-keeps order cs (step order c a).0 (step-IsConsistent order c a v)

-- Whatever is called, in whatever order, the assembler holds one sweep for each closed elevation,
-- each of radials of its own elevation and not empty, the open sweep is of an elevation that is
-- not closed, and outside `accumulating` no sweep is held.
pub run_calls-IsConsistent :
    (order : HashOrder) (timeout : ℕ) (calls : List Call)
    → IsConsistent (run_calls order calls (new timeout)).0
run_calls-IsConsistent order timeout calls =
    run-keeps order calls (new timeout) (IsConsistent-new timeout)
