-- ===== src/Assembly.antt =====
-- crates/radar-workstation/src/assembly/mod.rs: the volume assembly state machine. A method is a
-- function from the assembler to the assembler after it and the events that it pushed.
pub mod Volume
pub mod Invariant
pub mod Preserved
pub mod Events
pub mod Diagram
pub mod Conservation
pub mod Contents
use radar_workstation.Common.{
  ℕ, ◌+◌, ◌-◌, Bool, true, false, ◌||◌, Option, none, some, List, [], ◌∷◌, ◌++◌, leb, ◌==◌,
  if◌then◌else◌,
}
use radar_workstation.Chunk.{ChunkKind, start, intermediate, end_chunk}
use radar_workstation.Decoder.Radial.{Radial, RadialStatus, end_of_elevation, end_of_volume}
use radar_workstation.Decoder.Vcp.{VcpDefinition}
use Volume.{
  Sweep, VolumeStatus, VolumeId, complete, superseded, timed_out, VolumeContext, default_context,
  vcp_number, apply_vcp, apply_radial, SweepBuilder, start_sweep, push_radial, close_builder,
  AssemblyEvent, sweep_closed, volume_closed, late_radials_discarded, missing_start_chunk,
}

pub data AssemblyState : Type 0 where
  idle awaiting_data accumulating : AssemblyState

-- `Instant` and `Duration` are natural numbers of the same unit. `HashSet<u8>` is the list of its
-- members.
pub record VolumeAssembler : Type 0 where
  pub watchdog_timeout : ℕ
  pub state : AssemblyState
  pub context : VolumeContext
  pub current_sweep : Option SweepBuilder
  pub closed_sweeps : List Sweep
  pub closed_elevations : List ℕ
  pub last_activity : Option ℕ

abbrev pub new : ℕ → VolumeAssembler
new timeout = record {
  watchdog_timeout = timeout;
  state = idle;
  context = default_context;
  current_sweep = none;
  closed_sweeps = [];
  closed_elevations = [];
  last_activity = none;
}

unfoldable pub reset : VolumeAssembler → VolumeAssembler
reset a = record a {
  state = idle;
  context = default_context;
  current_sweep = none;
  closed_sweeps = [];
  closed_elevations = [];
  last_activity = none;
}

-- A method: the assembler after it, and the events that it pushed, in order.
abbrev pub Step : Type 0
Step = VolumeAssembler × List AssemblyEvent

-- `events.push(..)` by each method of a sequence.
infixl 5 ◌▹◌
abbrev pub ◌▹◌ : Step → (VolumeAssembler → Step) → Step
s ▹ f = let (a, events) = s in let (b, more) = f a in (b, events ++ more)

unfoldable pub contains : List ℕ → ℕ → Bool
contains [] n = false
contains (m ∷ ms) n = m == n || contains ms n

unfoldable pub close_sweep : SweepBuilder → Bool → VolumeAssembler → Step
close_sweep b whole a =
    let sweep = close_builder whole b in
    let volume : VolumeId = record {
      julian_date = a.context.julian_date;
      scan_time_ms = a.context.scan_time_ms;
    } in
    (
      record a {
        closed_elevations = a.closed_elevations ++ b.elevation_number ∷ [];
        closed_sweeps = a.closed_sweeps ++ sweep ∷ [];
      },
      sweep_closed sweep volume (vcp_number a.context) ∷ [],
    )

-- `if let Some(builder) = self.current_sweep.take() { self.close_sweep(builder, complete, events) }`
unfoldable pub close_current : Bool → VolumeAssembler → Step
close_current whole a = elim a.current_sweep [
  | none ↦ (a, [])
  | some b ↦ close_sweep b whole (record a { current_sweep = none })
]

unfoldable pub finish_volume : VolumeStatus → VolumeAssembler → Step
finish_volume status a = (
  record a { state = idle; context = default_context; closed_sweeps = []; closed_elevations = [] },
  volume_closed (record {
    site_id = a.context.site_id;
    scan_time_ms = a.context.scan_time_ms;
    julian_date = a.context.julian_date;
    vcp_number = vcp_number a.context;
    latitude = a.context.latitude;
    longitude = a.context.longitude;
    site_amsl_m = a.context.site_amsl_m;
    sweeps = a.closed_sweeps;
    status = status;
  })
      ∷ [],
)

-- The open sweep is closed as incomplete, and the volume is finished.
unfoldable pub end_volume : VolumeStatus → VolumeAssembler → Step
end_volume status a = close_current false a ▹ finish_volume status

abbrev pub fresh_volume : VolumeAssembler → Step
fresh_volume a = (
  record a {
    context = default_context;
    current_sweep = none;
    closed_sweeps = [];
    closed_elevations = [];
    state = awaiting_data;
  },
  [],
)

abbrev pub is_accumulating : AssemblyState → Bool
is_accumulating accumulating = true
is_accumulating _ = false

abbrev pub is_idle : AssemblyState → Bool
is_idle idle = true
is_idle _ = false

abbrev pub is_awaiting : AssemblyState → Bool
is_awaiting awaiting_data = true
is_awaiting _ = false

unfoldable pub begin_new_volume : VolumeAssembler → Step
begin_new_volume a =
    (if is_accumulating a.state then end_volume superseded a else (a, [])) ▹ fresh_volume

unfoldable pub is_closure_status : RadialStatus → Bool
is_closure_status end_of_elevation = true
is_closure_status end_of_volume = true
is_closure_status _ = false

-- The sweep that a radial goes to, the one before it closed if its elevation is another.
unfoldable pub route_radial : Radial → VolumeAssembler → Step
route_radial r a = elim a.current_sweep [
  | none ↦ (record a { current_sweep = some (start_sweep r) }, [])
  | some b ↦
      if b.elevation_number == r.elevation_number
      then (record a { current_sweep = some (push_radial r b) }, [])
      else close_sweep b false (record a { current_sweep = none }) ▹ λ a'.
          (record a' { current_sweep = some (start_sweep r) }, [])
]

unfoldable pub ingest_radial : Radial → VolumeAssembler → Step
ingest_radial r a = route_radial r a ▹ λ a'.
    if is_closure_status r.radial_status then close_current true a' else (a', [])

-- `*late_discards.entry(n).or_insert(0) += 1`; the map is an association list.
unfoldable pub count_late : ℕ → List (ℕ × ℕ) → List (ℕ × ℕ)
count_late n [] = (n, 1) ∷ []
count_late n ((m, k) ∷ rest) = if m == n then (m, k + 1) ∷ rest else (m, k) ∷ count_late n rest

-- A radial of an elevation that is still open.
unfoldable pub accept_radial : Radial → VolumeAssembler → Step
accept_radial r a =
    let is_first = is_awaiting a.state in
    ingest_radial r (record a {
      state = if is_first then accumulating else a.state;
      context = apply_radial r is_first a.context;
    })

-- The loop over the radials of a chunk, with `late_discards`.
unfoldable pub ingest_all :
    List Radial
    → List (ℕ × ℕ)
    → VolumeAssembler
    → VolumeAssembler × List AssemblyEvent × List (ℕ × ℕ)
ingest_all [] late a = (a, [], late)
ingest_all (r ∷ rs) late a = elim (contains a.closed_elevations r.elevation_number) [
  | true ↦ ingest_all rs (count_late r.elevation_number late) a
  | false ↦
      let (b, events) = accept_radial r a in
      let (c, more, late') = ingest_all rs late b in (c, events ++ more, late')
]

-- `on_start_chunk`
unfoldable pub on_start_chunk : Option VcpDefinition → ℕ → VolumeAssembler → Step
on_start_chunk vcp now a = begin_new_volume (record a { last_activity = some now }) ▹ λ b.
    elim vcp [ some v ↦ (record b { context = apply_vcp v b.context }, []) | none ↦ (b, []) ]

-- The order in which a `HashMap` is iterated, which its documentation leaves open.
pub record HashOrder : Type 0 where
  pub drain : List (ℕ × ℕ) → List (ℕ × ℕ)

abbrev pub late_events : List (ℕ × ℕ) → List AssemblyEvent
late_events [] = []
late_events ((n, count) ∷ rest) = late_radials_discarded n count ∷ late_events rest

unfoldable pub note_missing_start : VolumeAssembler → Step
note_missing_start a =
    if is_idle a.state
    then (record a { state = awaiting_data }, missing_start_chunk ∷ [])
    else (a, [])

unfoldable pub feed_radials : HashOrder → List Radial → VolumeAssembler → Step
feed_radials order radials a =
    let (b, events, late) = ingest_all radials [] a in (b, events ++ late_events (order.drain late))

-- `on_chunk`
unfoldable pub on_chunk : HashOrder → ChunkKind → List Radial → ℕ → VolumeAssembler → Step
on_chunk order start radials now a = begin_new_volume (record a { last_activity = some now })
on_chunk order intermediate radials now a =
    note_missing_start (record a { last_activity = some now }) ▹ feed_radials order radials
on_chunk order end_chunk radials now a =
    note_missing_start (record a { last_activity = some now })
    ▹ feed_radials order radials
    ▹ end_volume complete

-- `on_tick`: the watchdog. `Instant::duration_since` is 0 for a later instant.
unfoldable pub on_tick : ℕ → VolumeAssembler → Step
on_tick now a = if is_idle a.state then (a, []) else elim a.last_activity [
  | none ↦ (a, [])
  | some last ↦ if leb a.watchdog_timeout (now - last) then end_volume timed_out a else (a, [])
]

-- The calls of the owning task, and a run of them.
pub data Call : Type 0 where
  start_chunk : Option VcpDefinition → ℕ → Call
  chunk : ChunkKind → List Radial → ℕ → Call
  tick : ℕ → Call
  site_change : Call

unfoldable pub step : HashOrder → Call → VolumeAssembler → Step
step order (start_chunk vcp now) a = on_start_chunk vcp now a
step order (chunk kind radials now) a = on_chunk order kind radials now a
step order (tick now) a = on_tick now a
step order site_change a = (reset a, [])

unfoldable pub run_calls : HashOrder → List Call → VolumeAssembler → Step
run_calls order [] a = (a, [])
run_calls order (c ∷ cs) a = step order c a ▹ run_calls order cs
