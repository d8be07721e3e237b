-- ===== src/Event.antt =====
-- crates/radar-workstation/src/event.rs: the events that are reported, and the bounded log of them.
pub mod Recent
use radar_workstation.Common.{
  ℕ, ◌-◌, String, Bytes, List, [], ◌∷◌, ◌++◌, length, drop, ◌==◌, if◌then◌else◌,
}
use radar_workstation.Compute.{DisplayProduct}
use radar_workstation.Ingest.{PollError}

pub data TaskKind : Type 0 where
  ingest_pipeline : TaskKind

-- Every field of a variant, in order. A `Duration` is a number.
pub data Event : Type 0 where
  poll_failed : PollError → Event
  unrecognized_key_suffix : Bytes → Event
  unrecognized_volume_folder : Bytes → Event
  re_anchored : ℕ → ℕ → ℕ → Event
  advanced_past_stalled_volume : ℕ → ℕ → ℕ → Event
  late_radials_were_discarded : ℕ → ℕ → Event
  start_chunk_missing : Event
  task_panicked : TaskKind → Event
  task_restarted : TaskKind → ℕ → Event
  config_unreadable : Bytes → Bytes → Event
  config_line_unparseable : ℕ → Event
  config_unknown_site : Bytes → Event
  config_value_invalid : Bytes → Bytes → Event
  config_poll_interval_clamped : ℕ → ℕ → Event
  unknown_azimuth_spacing_code : ℕ → ℕ → Event
  degenerate_gate_geometry : DisplayProduct → ℕ → Event
  inconsistent_gate_geometry : DisplayProduct → ℕ → ℕ → Event
  duplicate_azimuth_slot : DisplayProduct → ℕ → ℕ → Event
  retained_grid_set_bounded : ℕ → Event
  palette_line_unparseable : DisplayProduct → ℕ → Event
  user_palette_unreadable : DisplayProduct → Bytes → Bytes → Event
  user_palette_malformed : DisplayProduct → Bytes → Event
  overlay_bundle_invalid : String → Event
  overlay_layer_unknown_kind : ℕ → Event

abbrev pub event_log_capacity : ℕ
event_log_capacity = 64

-- An entry of the log: when it was reported, and the event.
abbrev pub Entry : Type 0
Entry = ℕ × Event

abbrev pub EventLog : Type 0
EventLog = List Entry

-- `EventLog::push`, at an instant.
unfoldable pub push : ℕ → Event → EventLog → EventLog
push now e log = (if length log == event_log_capacity then drop 1 log else log) ++ (now, e) ∷ []

-- `EventLog::recent`, without the events' text.
unfoldable pub recent : ℕ → EventLog → List Entry
recent n log = drop (length log - n) log
