-- ===== src/Assembly/Volume.antt =====
-- crates/radar-workstation/src/assembly/context.rs, the sweep builder and the events of
-- assembly/mod.rs, and crates/nexrad-decoder/src/types/{sweep,volume_scan}.rs.
use radar_workstation.Common.{
  ℕ, Bool, Option, none, some, List, [], ◌∷◌, ◌++◌, Bytes, ◌==◌, if◌then◌else◌,
}
use radar_workstation.Common.Int.{ℤ, pos}
use radar_workstation.Decoder.Cursor.{F32}
use radar_workstation.Decoder.Headers.{SiteParameters}
use radar_workstation.Decoder.Radial.{Radial}
use radar_workstation.Decoder.Vcp.{VcpDefinition}

pub record Sweep : Type 0 where
  pub elevation_number : ℕ
  pub elevation_deg : F32
  pub nyquist_velocity_mps : Option F32
  pub unambiguous_range_km : Option F32
  pub radials : List Radial
  pub complete : Bool

pub data VolumeStatus : Type 0 where
  in_progress complete superseded timed_out : VolumeStatus

pub record VolumeScan : Type 0 where
  pub site_id : Bytes
  pub scan_time_ms : ℕ
  pub julian_date : ℕ
  pub vcp_number : ℕ
  pub latitude : F32
  pub longitude : F32
  pub site_amsl_m : ℤ
  pub sweeps : List Sweep
  pub status : VolumeStatus

-- `VolumeScan::sweep`
unfoldable pub find_sweep : ℕ → List Sweep → Option Sweep
find_sweep n [] = none
find_sweep n (s ∷ rest) = if s.elevation_number == n then some s else find_sweep n rest

pub record VolumeId : Type 0 where
  pub julian_date : ℕ
  pub scan_time_ms : ℕ

pub data AssemblyEvent : Type 0 where
  sweep_closed : Sweep → VolumeId → ℕ → AssemblyEvent
  volume_closed : VolumeScan → AssemblyEvent
  late_radials_discarded : ℕ → ℕ → AssemblyEvent
  missing_start_chunk : AssemblyEvent

pub record VolumeContext : Type 0 where
  pub site_id : Bytes
  pub scan_time_ms : ℕ
  pub julian_date : ℕ
  pub vcp : Option VcpDefinition
  pub rvol_vcp_number : Option ℕ
  pub latitude : F32
  pub longitude : F32
  pub site_amsl_m : ℤ

-- `VolumeContext::default()`; the bits of `0.0f32` are 0.
abbrev pub default_context : VolumeContext
default_context = record {
  site_id = 0 ∷ 0 ∷ 0 ∷ 0 ∷ [];
  scan_time_ms = 0;
  julian_date = 0;
  vcp = none;
  rvol_vcp_number = none;
  latitude = 0;
  longitude = 0;
  site_amsl_m = pos 0;
}

unfoldable pub vcp_number : VolumeContext → ℕ
vcp_number c = elim c.vcp [
  | some v ↦ v.vcp_number
  | none ↦ elim c.rvol_vcp_number [ some n ↦ n | none ↦ 0 ]
]

unfoldable pub apply_vcp : VcpDefinition → VolumeContext → VolumeContext
apply_vcp v c = record c { vcp = some v }

unfoldable pub apply_site : Option SiteParameters → VolumeContext → VolumeContext
apply_site none c = c
apply_site (some sp) c = record c {
  rvol_vcp_number = some sp.vcp_number;
  latitude = sp.latitude;
  longitude = sp.longitude;
  site_amsl_m = sp.site_amsl_m;
}

unfoldable pub apply_radial : Radial → Bool → VolumeContext → VolumeContext
unfolding apply_site
apply_radial r is_first c = apply_site r.site_parameters (
    if is_first
    then record c {
      site_id = r.site_id;
      scan_time_ms = r.scan_time_ms;
      julian_date = r.julian_date;
    }
    else c)

pub record SweepBuilder : Type 0 where
  pub elevation_number : ℕ
  pub elevation_deg : F32
  pub nyquist_velocity_mps : Option F32
  pub unambiguous_range_km : Option F32
  pub radials : List Radial

unfoldable pub start_sweep : Radial → SweepBuilder
start_sweep r = record {
  elevation_number = r.elevation_number;
  elevation_deg = r.elevation_deg;
  nyquist_velocity_mps = r.nyquist_velocity_mps;
  unambiguous_range_km = r.unambiguous_range_km;
  radials = r ∷ [];
}

unfoldable pub push_radial : Radial → SweepBuilder → SweepBuilder
push_radial r b = record b { radials = b.radials ++ r ∷ [] }

unfoldable pub close_builder : Bool → SweepBuilder → Sweep
close_builder whole b = record {
  elevation_number = b.elevation_number;
  elevation_deg = b.elevation_deg;
  nyquist_velocity_mps = b.nyquist_velocity_mps;
  unambiguous_range_km = b.unambiguous_range_km;
  radials = b.radials;
  complete = whole;
}
