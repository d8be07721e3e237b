-- ===== src/Tests/Displays.antt =====
-- The displayed state and the log of events, on two volumes.
use radar_workstation.Common.{ℕ, ◌≡◌, refl, none, some, List, [], ◌∷◌, arith, replicate, drop}
use radar_workstation.Common.Int.{pos}
use radar_workstation.Common.OrderedMap.{get}
use radar_workstation.Common.Text.{codes}
use radar_workstation.Assembly.Volume.{VolumeId, missing_start_chunk}
use radar_workstation.Event.{Entry, recent, start_chunk_missing}
use radar_workstation.Event.Recent.{push_all, recent-push_all}
use radar_workstation.Ingest.{default_status}
use radar_workstation.State.{
  Site, RadarState, GriddedSweep, StateUpdate, sweep_gridded, derived_computed, info, new_state,
  new_app_state, apply, apply_loop, display,
}
use radar_workstation.State.Consistency.{
  LoopOutcome, Outcome, Changed, apply_loop-IsConsistent, apply-Changed,
}
use radar_workstation.State.Newest.{Kept, apply-NotBefore}

abbrev kdox : Site
kdox = record {
  id = codes "KDOX";
  name = codes "Dover AFB";
  state = codes "DE";
  lat = 0;
  lon = 0;
  elevation_m = pos 15;
}

abbrev volume_at : ℕ → VolumeId
volume_at time = record { julian_date = 20000; scan_time_ms = time }

abbrev gridded : ℕ → ℕ → GriddedSweep
gridded elevation time = record {
  elevation_number = elevation;
  elevation_deg = 0;
  volume = volume_at time;
  vcp_number = 212;
  grids = [];
}

abbrev empty_radar : RadarState
empty_radar = record {
  site = kdox;
  sweeps = [];
  derived = [];
  derived_volume = none;
  current_vcp = none;
  last_complete = none;
  revision = 0;
}

-- The state of the first volume's sweep.
abbrev displayed : RadarState
displayed = record empty_radar {
  sweeps = (1, display (gridded 1 500) 7) ∷ [];
  current_vcp = some 212;
  revision = 1;
}

abbrev updates : List (ℕ × StateUpdate)
updates =
    (7, sweep_gridded (gridded 2 500))
    ∷ (8, sweep_gridded (gridded 1 500))
    ∷ (9, derived_computed (volume_at 500) 212 [])
    ∷ (10, info missing_start_chunk)
    ∷ []

apply_loop-IsConsistent_example :
    LoopOutcome 4 (apply_loop updates (new_app_state kdox default_status))
unfolding new_app_state new_state
apply_loop-IsConsistent_example =
    apply_loop-IsConsistent updates (new_app_state kdox default_status) (tt, tt, tt, tt, λ _. refl)

apply-Changed_example :
    Outcome (Changed displayed) displayed (apply (sweep_gridded (gridded 1 400)) 8 displayed)
apply-Changed_example =
    apply-Changed (sweep_gridded (gridded 1 400)) 8 displayed
      (tt, ((refl, refl), tt), tt, tt, λ _. refl)

apply-NotBefore_example :
    Outcome
      (λ r. Kept 1 (display (gridded 1 500) 7) r.0)
      displayed
      (apply (sweep_gridded (gridded 1 900)) 8 displayed)
unfolding get
apply-NotBefore_example =
    apply-NotBefore (sweep_gridded (gridded 1 900)) 8 displayed 1 (display (gridded 1 500) 7)
      (λ g h. ground arith) refl

abbrev many : List Entry
many = replicate 70 (5, start_chunk_missing)

recent-push_all_example : recent 80 (push_all many []) ≡ drop 6 many
recent-push_all_example = recent-push_all 80 many
