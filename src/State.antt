-- ===== src/State.antt =====
-- crates/radar-workstation/src/state: the radar data that is displayed, and apply.rs, which puts the
-- updates of the compute layer into it.
pub mod Consistency
pub mod Newest
use radar_workstation.Common.{
  ℕ, ◌+◌, Bytes, List, [], ◌∷◌, Option, none, some, Bool, true, false, not, ltb, leb, ◌==◌,
  if◌then◌else◌, ◌||◌, ◌&&◌,
}
use radar_workstation.Common.Int.{ℤ}
use radar_workstation.Common.OrderedMap.{OrderedMap, get, insert, values}
use radar_workstation.Decoder.Cursor.{F32}
use radar_workstation.Assembly.Volume.{
  VolumeId, VolumeStatus, complete, VolumeScan, AssemblyEvent, late_radials_discarded,
  missing_start_chunk, sweep_closed, volume_closed,
}
use radar_workstation.Compute.{SweepGrid, rank}
use radar_workstation.Event.{
  Event, EventLog, push, recent, Entry, late_radials_were_discarded, start_chunk_missing,
}
use radar_workstation.Ingest.{IngestStatus}

-- `Site` of sites.rs; an `f64` stands for its bits.
pub record Site : Type 0 where
  pub id : Bytes
  pub name : Bytes
  pub state : Bytes
  pub lat : ℕ
  pub lon : ℕ
  pub elevation_m : ℤ

pub record DisplaySweep : Type 0 where
  pub elevation_number : ℕ
  pub elevation_deg : F32
  pub volume : VolumeId
  pub vcp_number : ℕ
  pub received : ℕ
  pub grids : List SweepGrid

pub record VolumeSummary : Type 0 where
  pub volume : VolumeId
  pub vcp_number : ℕ
  pub status : VolumeStatus
  pub latitude : F32
  pub longitude : F32
  pub site_amsl_m : ℤ

-- `VolumeSummary::from_scan`
unfoldable pub from_scan : VolumeScan → VolumeSummary
from_scan scan = record {
  volume = record { julian_date = scan.julian_date; scan_time_ms = scan.scan_time_ms };
  vcp_number = scan.vcp_number;
  status = scan.status;
  latitude = scan.latitude;
  longitude = scan.longitude;
  site_amsl_m = scan.site_amsl_m;
}

-- The derived grids are under the rank of their product.
pub record RadarState : Type 0 where
  pub site : Site
  pub sweeps : OrderedMap DisplaySweep
  pub derived : OrderedMap SweepGrid
  pub derived_volume : Option VolumeId
  pub current_vcp : Option ℕ
  pub last_complete : Option VolumeSummary
  pub revision : ℕ

-- `RadarState::new`
unfoldable pub new_state : Site → RadarState
new_state site = record {
  site = site;
  sweeps = [];
  derived = [];
  derived_volume = none;
  current_vcp = none;
  last_complete = none;
  revision = 0;
}

-- `revision += 1` on a `u64`. A sum that overflows is a panic, and gives no state.
unfoldable pub next_revision : RadarState → Option RadarState
next_revision s =
    if ltb s.revision 18446744073709551615
    then some (record s { revision = s.revision + 1 })
    else none

-- `RadarState::reset`
unfoldable pub reset_state : Site → RadarState → Option RadarState
reset_state site s = next_revision (record s {
  site = site;
  sweeps = [];
  derived = [];
  derived_volume = none;
  current_vcp = none;
  last_complete = none;
})

-- The fields of a gridded sweep.
pub record GriddedSweep : Type 0 where
  pub elevation_number : ℕ
  pub elevation_deg : F32
  pub volume : VolumeId
  pub vcp_number : ℕ
  pub grids : List SweepGrid

pub data StateUpdate : Type 0 where
  sweep_gridded : GriddedSweep → StateUpdate
  derived_computed : VolumeId → ℕ → List SweepGrid → StateUpdate
  volume_summarized : VolumeSummary → StateUpdate
  info : AssemblyEvent → StateUpdate

-- The order that is derived: the date first, then the time.
unfoldable pub volume_le : VolumeId → VolumeId → Bool
volume_le a b =
    ltb a.julian_date b.julian_date
    || (a.julian_date == b.julian_date && leb a.scan_time_ms b.scan_time_ms)

abbrev pub is_other_vcp : ℕ → Option ℕ → Bool
is_other_vcp n none = false
is_other_vcp n (some current) = not (current == n)

-- The end of an arm that changes the state.
unfoldable pub changed : Option RadarState → Option (RadarState × Bool)
changed none = none
changed (some s) = some (s, true)

-- The state once the VCP is noted, which another VCP clears first.
unfoldable pub enter_vcp : ℕ → RadarState → RadarState
enter_vcp n s =
    if is_other_vcp n s.current_vcp
    then record s { sweeps = []; derived = []; derived_volume = none; current_vcp = some n }
    else record s { current_vcp = some n }

abbrev pub replaces : VolumeId → Option DisplaySweep → Bool
replaces volume none = true
replaces volume (some existing) = volume_le existing.volume volume

abbrev pub display : GriddedSweep → ℕ → DisplaySweep
display g now = record {
  elevation_number = g.elevation_number;
  elevation_deg = g.elevation_deg;
  volume = g.volume;
  vcp_number = g.vcp_number;
  received = now;
  grids = g.grids;
}

-- The arm of `SweepGridded`.
unfoldable pub apply_sweep : GriddedSweep → ℕ → RadarState → Option (RadarState × Bool)
apply_sweep g now s =
    let entered = enter_vcp g.vcp_number s in
    if replaces g.volume (get g.elevation_number entered.sweeps)
    then changed (
        next_revision
          (record entered { sweeps = insert g.elevation_number (display g now) entered.sweeps }))
    else some (entered, false)

abbrev pub is_older : VolumeId → Option VolumeId → Bool
is_older volume none = false
is_older volume (some existing) = not (volume_le existing volume)

-- The loop that inserts, from an empty map.
unfoldable pub insert_grids : List SweepGrid → OrderedMap SweepGrid → OrderedMap SweepGrid
insert_grids [] m = m
insert_grids (g ∷ gs) m = insert_grids gs (insert (rank g.product) g m)

-- The arm of `DerivedComputed`.
unfoldable pub apply_derived : VolumeId → List SweepGrid → RadarState → Option (RadarState × Bool)
apply_derived volume grids s =
    if is_older volume s.derived_volume
    then some (s, false)
    else changed
        (next_revision (record s { derived = insert_grids grids []; derived_volume = some volume }))

abbrev pub is_complete : VolumeStatus → Bool
is_complete complete = true
is_complete _ = false

-- The arm of `VolumeClosed`.
unfoldable pub apply_summary : VolumeSummary → RadarState → Option (RadarState × Bool)
apply_summary summary s =
    if is_complete summary.status
    then changed (next_revision (record s { last_complete = some summary }))
    else some (s, false)

unfoldable pub apply : StateUpdate → ℕ → RadarState → Option (RadarState × Bool)
apply (sweep_gridded g) now s = apply_sweep g now s
apply (derived_computed volume vcp grids) now s = apply_derived volume grids s
apply (volume_summarized summary) now s = apply_summary summary s
apply (info e) now s = some (s, false)

-- `AppState`: the data behind its lock, the status that the poller published last, and the log.
pub record AppState : Type 0 where
  pub radar : RadarState
  pub ingest : IngestStatus
  pub events : EventLog

-- `AppState::new`, with what the channel's receiver sees.
unfoldable pub new_app_state : Site → IngestStatus → AppState
new_app_state site status = record { radar = new_state site; ingest = status; events = [] }

-- `AppState::report`, less the line on the standard error stream.
unfoldable pub report : ℕ → Event → AppState → AppState
report now e a = record a { events = push now e a.events }

-- The events of the assembler that are reported.
unfoldable pub informed : AssemblyEvent → Option Event
informed (late_radials_discarded elevation count) =
    some (late_radials_were_discarded elevation count)
informed missing_start_chunk = some start_chunk_missing
informed (sweep_closed sweep volume vcp) = none
informed (volume_closed scan) = none

abbrev pub reported : ℕ → Option Event → AppState → AppState
reported now none a = a
reported now (some e) a = report now e a

abbrev pub report_of : StateUpdate → Option Event
report_of (info e) = informed e
report_of _ = none

abbrev pub with_radar : AppState → Option (RadarState × Bool) → Option (AppState × Bool)
with_radar a none = none
with_radar a (some (radar, changed_it)) = some (record a { radar = radar }, changed_it)

-- `AppState::apply_event`; the log and the data are separate, and the instants are the same here.
unfoldable pub apply_event : StateUpdate → ℕ → AppState → Option (AppState × Bool)
apply_event u now a = with_radar (reported now (report_of u) a) (apply u now a.radar)

-- `AppState::reset`
unfoldable pub reset : Site → AppState → Option AppState
reset site a = elim (reset_state site a.radar) [
  | none ↦ none
  | some radar ↦ some (record a { radar = radar })
]

pub record StateSnapshot : Type 0 where
  pub site : Site
  pub sweeps : List DisplaySweep
  pub derived : List SweepGrid
  pub last_complete : Option VolumeSummary
  pub revision : ℕ
  pub ingest : IngestStatus

unfoldable pub snapshot : AppState → StateSnapshot
snapshot a = record {
  site = a.radar.site;
  sweeps = values a.radar.sweeps;
  derived = values a.radar.derived;
  last_complete = a.radar.last_complete;
  revision = a.radar.revision;
  ingest = a.ingest;
}

-- The loop of pipeline.rs that applies what the compute layer sends, each with its instant.
unfoldable pub apply_loop : List (ℕ × StateUpdate) → AppState → Option AppState
apply_loop [] a = some a
apply_loop ((now, u) ∷ us) a = elim (apply_event u now a) [
  | none ↦ none
  | some applied ↦ apply_loop us applied.0
]
