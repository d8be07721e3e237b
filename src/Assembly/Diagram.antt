-- ===== src/Assembly/Diagram.antt =====
-- The assembler against the state diagram of ADR-0012.
use radar_workstation.Common.{
  ℕ, ◌-◌, ◌≡◌, refl, ap, ap₂, ◌∙◌, Bool, true, false, ◌&&◌, not, Option, none, some, List, [], ◌∷◌,
  ◌++◌, arith, append-nil, Bool-cases, Option-cases, inl, inr, ◌==◌, leb, if◌then◌else◌,
}
use radar_workstation.Chunk.{ChunkKind, start, intermediate, end_chunk}
use radar_workstation.Decoder.Radial.{Radial}
use radar_workstation.Assembly.Volume.{
  VolumeStatus, complete, superseded, timed_out, AssemblyEvent, sweep_closed, volume_closed,
  late_radials_discarded, missing_start_chunk,
}
use radar_workstation.Assembly.{
  AssemblyState, idle, awaiting_data, accumulating, is_accumulating, VolumeAssembler, Step, ◌▹◌,
  contains, close_sweep, close_current, finish_volume, begin_new_volume, route_radial,
  ingest_radial, is_closure_status, accept_radial, ingest_all, on_start_chunk, on_chunk, on_tick,
  HashOrder, late_events, count_late, feed_radials, end_volume, note_missing_start, Call,
  start_chunk, chunk, tick, site_change, step, is_idle, reset,
}
use radar_workstation.Decoder.Vcp.{VcpDefinition}
use radar_workstation.Assembly.Events.{nothing_held}
use radar_workstation.Assembly.Invariant.{IsConsistent, elevations_of, state-accept_radial}

-- The statuses of the volumes that the events close.
abbrev pub closes : List AssemblyEvent → List VolumeStatus
closes [] = []
closes (volume_closed v ∷ events) = v.status ∷ closes events
closes (sweep_closed s volume vcp ∷ events) = closes events
closes (late_radials_discarded n k ∷ events) = closes events
closes (missing_start_chunk ∷ events) = closes events

-- At least the timeout has passed since the last chunk.
abbrev pub overdue : VolumeAssembler → ℕ → Bool
overdue a now = elim a.last_activity [
  | none ↦ false
  | some last ↦ leb a.watchdog_timeout (now - last)
]

abbrev pub started : List Radial → AssemblyState
started [] = awaiting_data
started (r ∷ rs) = accumulating

-- The state after radials: a volume accumulates from its first radial on.
abbrev pub fed : AssemblyState → List Radial → AssemblyState
fed s rs = if is_accumulating s then accumulating else started rs

abbrev pub superseding : AssemblyState → List VolumeStatus
superseding s = if is_accumulating s then superseded ∷ [] else []

-- The diagram: the next state, and the volumes that are closed on the way.
abbrev pub diagram : AssemblyState → (ℕ → Bool) → Call → AssemblyState × List VolumeStatus
diagram s late (start_chunk vcp now) = (awaiting_data, superseding s)
diagram s late (chunk start rs now) = (awaiting_data, superseding s)
diagram s late (chunk intermediate rs now) = (fed s rs, [])
diagram s late (chunk end_chunk rs now) = (idle, complete ∷ [])
diagram s late (tick now) = if not (is_idle s) && late now then (idle, timed_out ∷ []) else (s, [])
diagram s late site_change = (idle, [])

abbrev pub observed : Step → AssemblyState × List VolumeStatus
observed s = (s.0.state, closes s.1)

closes-append : (es fs : List AssemblyEvent) → closes (es ++ fs) ≡ closes es ++ closes fs
closes-append [] fs = refl
closes-append (volume_closed v ∷ es) fs = ap (◌∷◌ v.status) (closes-append es fs)
closes-append (sweep_closed s volume vcp ∷ es) fs = closes-append es fs
closes-append (late_radials_discarded n k ∷ es) fs = closes-append es fs
closes-append (missing_start_chunk ∷ es) fs = closes-append es fs

closes-close_current : (whole : Bool) (a : VolumeAssembler) → closes (close_current whole a).1 ≡ []
unfolding close_current close_sweep
closes-close_current whole a = elim (Option-cases a.current_sweep) [
  | inl nothing ↦ rw (nothing, close_current) refl
  | inr (b, some_b) ↦ rw (some_b, close_current) refl
]

closes-route_radial : (r : Radial) (a : VolumeAssembler) → closes (route_radial r a).1 ≡ []
unfolding route_radial close_sweep
closes-route_radial r a = elim (Option-cases a.current_sweep) [
  | inl nothing ↦ rw (nothing, route_radial) refl
  | inr (b, some_b) ↦ elim (Bool-cases (b.elevation_number == r.elevation_number)) [
    | inl same ↦ rw (some_b, route_radial) (rw same refl)
    | inr other ↦ rw (some_b, route_radial) (rw other refl)
  ]
]

closes-close_if :
    (b : Bool) (a : VolumeAssembler) → closes (if b then close_current true a else (a, [])).1 ≡ []
closes-close_if true a = closes-close_current true a
closes-close_if false a = refl

closes-accept_radial : (r : Radial) (a : VolumeAssembler) → closes (accept_radial r a).1 ≡ []
unfolding accept_radial ingest_radial
closes-accept_radial r a =
    closes-append (route_radial r _).1 _
    ∙ ap₂ (λ xs ys. xs ++ ys) (closes-route_radial r _)
        (closes-close_if (is_closure_status r.radial_status) _)

closes-ingest_all :
    (rs : List Radial) (late : List (ℕ × ℕ)) (a : VolumeAssembler)
    → closes (ingest_all rs late a).1 ≡ []
unfolding ingest_all
closes-ingest_all [] late a = refl
closes-ingest_all (r ∷ rs) late a =
    elim (Bool-cases (contains a.closed_elevations r.elevation_number)) [
      | inl closed ↦
          rw (closed, ingest_all) (closes-ingest_all rs (count_late r.elevation_number late) a)
      | inr fresh ↦
          rw (fresh, ingest_all)
            (closes-append (accept_radial r a).1 (ingest_all rs late (accept_radial r a).0).1
              ∙ ap₂ (λ xs ys. xs ++ ys) (closes-accept_radial r a)
                  (closes-ingest_all rs late (accept_radial r a).0))
    ]

closes-late_events : (late : List (ℕ × ℕ)) → closes (late_events late) ≡ []
closes-late_events [] = refl
closes-late_events ((n, k) ∷ late) = closes-late_events late

ingest_all-stays :
    (rs : List Radial) (late : List (ℕ × ℕ)) (a : VolumeAssembler)
    → a.state ≡ accumulating
    → (ingest_all rs late a).0.state ≡ accumulating
unfolding ingest_all
ingest_all-stays [] late a e = e
ingest_all-stays (r ∷ rs) late a e =
    elim (Bool-cases (contains a.closed_elevations r.elevation_number)) [
      | inl closed ↦
          rw (closed, ingest_all) (ingest_all-stays rs (count_late r.elevation_number late) a e)
      | inr fresh ↦
          rw (fresh, ingest_all)
            (ingest_all-stays rs late (accept_radial r a).0
              (state-accept_radial r a (ap is_idle e)))
    ]

-- From a volume's start the first radial is accepted, whatever its elevation.
ingest_all-starts :
    (rs : List Radial) (a : VolumeAssembler)
    → a.state ≡ awaiting_data
    → a.closed_elevations ≡ []
    → (ingest_all rs [] a).0.state ≡ started rs
unfolding ingest_all contains
ingest_all-starts [] a e none_closed = e
ingest_all-starts (r ∷ rs) a e none_closed =
    let fresh : contains a.closed_elevations r.elevation_number ≡ false =
      ap (λ l. contains l r.elevation_number) none_closed in
    rw (fresh, ingest_all)
      (ingest_all-stays rs [] (accept_radial r a).0 (state-accept_radial r a (ap is_idle e)))

feed_radials-observed :
    (order : HashOrder) (rs : List Radial) (a : VolumeAssembler)
    → closes (feed_radials order rs a).1 ≡ []
unfolding feed_radials
feed_radials-observed order rs a =
    closes-append (ingest_all rs [] a).1 (late_events (order.drain (ingest_all rs [] a).2))
    ∙ ap₂ (λ xs ys. xs ++ ys) (closes-ingest_all rs [] a)
        (closes-late_events (order.drain (ingest_all rs [] a).2))

end_volume-observed :
    (status : VolumeStatus) (a : VolumeAssembler)
    → observed (end_volume status a) ≡ (idle, status ∷ [])
unfolding end_volume finish_volume
end_volume-observed status a =
    ap (λ l. (idle, l))
      (closes-append (close_current false a).1 _
        ∙ ap (λ l. l ++ status ∷ []) (closes-close_current false a))

begin_new_volume-observed :
    (a : VolumeAssembler) → observed (begin_new_volume a) ≡ (awaiting_data, superseding a.state)
unfolding begin_new_volume
begin_new_volume-observed a = elim (Bool-cases (is_accumulating a.state)) [
  | inl acc ↦ rw acc (
      ap (λ l. (awaiting_data, l))
        (closes-append (end_volume superseded a).1 []
          ∙ ap (λ (o : AssemblyState × List VolumeStatus). o.1 ++ [])
              (end_volume-observed superseded a)))
  | inr other ↦ rw other refl
]

is_accumulating→eq : (s : AssemblyState) → is_accumulating s ≡ true → s ≡ accumulating
is_accumulating→eq s h = ground arith

awaiting_of :
    (s : AssemblyState) → is_idle s ≡ false → is_accumulating s ≡ false → s ≡ awaiting_data
awaiting_of s h k = ground arith

is_idle→not_accumulating : (s : AssemblyState) → is_idle s ≡ true → is_accumulating s ≡ false
is_idle→not_accumulating s h = ground arith

no_closed :
    (a : VolumeAssembler)
    → IsConsistent a
    → is_accumulating a.state ≡ false
    → a.closed_elevations ≡ []
no_closed a v other =
    v.held.elevations ∙ ap elevations_of (nothing_held a.state a.current_sweep other v.rest)

state-feed :
    (rs : List Radial) (a : VolumeAssembler)
    → IsConsistent a
    → (ingest_all rs [] (note_missing_start a).0).0.state ≡ fed a.state rs
unfolding note_missing_start
state-feed rs a v = elim (Bool-cases (is_idle a.state)) [
  | inl at_rest ↦ rw at_rest (
      rw (is_idle→not_accumulating a.state at_rest) (
        ingest_all-starts rs (record a { state = awaiting_data }) refl
          (no_closed a v (is_idle→not_accumulating a.state at_rest))))
  | inr active ↦ elim (Bool-cases (is_accumulating a.state)) [
    | inl acc ↦ rw (active, acc) (ingest_all-stays rs [] a (is_accumulating→eq a.state acc))
    | inr other ↦
        rw (active, other)
          (ingest_all-starts rs a (awaiting_of a.state active other) (no_closed a v other))
  ]
]

closes-note_missing_start : (a : VolumeAssembler) → closes (note_missing_start a).1 ≡ []
unfolding note_missing_start
closes-note_missing_start a = elim (Bool-cases (is_idle a.state)) [
  | inl at_rest ↦ rw at_rest refl
  | inr active ↦ rw active refl
]

-- An `-I` chunk, and the first part of an `-E` chunk.
feed-observed :
    (order : HashOrder) (rs : List Radial) (a : VolumeAssembler)
    → IsConsistent a
    → observed (note_missing_start a ▹ feed_radials order rs) ≡ (fed a.state rs, [])
unfolding feed_radials
feed-observed order rs a v =
    ap₂ (λ (s : AssemblyState) (l : List VolumeStatus). (s, l)) (state-feed rs a v)
      (closes-append (note_missing_start a).1 (feed_radials order rs (note_missing_start a).0).1
        ∙ ap₂ (λ xs ys. xs ++ ys) (closes-note_missing_start a)
            (feed_radials-observed order rs (note_missing_start a).0))

on_start_chunk-observed :
    (vcp : Option VcpDefinition) (now : ℕ) (a : VolumeAssembler)
    → observed (on_start_chunk vcp now a) ≡ (awaiting_data, superseding a.state)
unfolding on_start_chunk
on_start_chunk-observed none now a =
    let begun = begin_new_volume (record a { last_activity = some now }) in
    ap (λ l. (begun.0.state, closes l)) (append-nil begun.1)
    ∙ begin_new_volume-observed (record a { last_activity = some now })
on_start_chunk-observed (some v) now a =
    let begun = begin_new_volume (record a { last_activity = some now }) in
    ap (λ l. (begun.0.state, closes l)) (append-nil begun.1)
    ∙ begin_new_volume-observed (record a { last_activity = some now })

on_chunk-observed :
    (order : HashOrder) (kind : ChunkKind) (rs : List Radial) (now : ℕ) (a : VolumeAssembler)
    → IsConsistent a
    → observed (on_chunk order kind rs now a) ≡ diagram a.state (overdue a) (chunk kind rs now)
unfolding on_chunk end_volume finish_volume
on_chunk-observed order start rs now a v =
    begin_new_volume-observed (record a { last_activity = some now })
on_chunk-observed order intermediate rs now a v =
    feed-observed order rs (record a { last_activity = some now })
      (record { held = v.held; rest = v.rest })
on_chunk-observed order end_chunk rs now a v =
    let noted = record a { last_activity = some now } in
    let fed_step = note_missing_start noted ▹ feed_radials order rs in
    ap (λ l. (idle, l))
      (closes-append fed_step.1 (end_volume complete fed_step.0).1
        ∙ ap₂ (λ xs ys. xs ++ ys)
            (ap (λ (o : AssemblyState × List VolumeStatus). o.1)
              (feed-observed order rs noted (record { held = v.held; rest = v.rest })))
            (ap (λ (o : AssemblyState × List VolumeStatus). o.1)
              (end_volume-observed complete fed_step.0)))

on_tick-observed :
    (order : HashOrder) (now : ℕ) (a : VolumeAssembler)
    → observed (on_tick now a) ≡ diagram a.state (overdue a) (tick now)
unfolding on_tick
on_tick-observed order now a = ground (arith, end_volume-observed timed_out a)

-- Every call moves a consistent assembler as the state diagram says, and closes exactly the volumes that
-- the diagram closes, with their statuses.
pub step-diagram :
    (order : HashOrder) (c : Call) (a : VolumeAssembler)
    → IsConsistent a
    → observed (step order c a) ≡ diagram a.state (overdue a) c
unfolding step reset
step-diagram order (start_chunk vcp now) a v = on_start_chunk-observed vcp now a
step-diagram order (chunk kind rs now) a v = on_chunk-observed order kind rs now a v
step-diagram order (tick now) a v = on_tick-observed order now a
step-diagram order site_change a v = refl
