-- ===== src/Tests/Volumes.antt =====
-- The assembler's theorems on a run of calls: a volume with two sweeps, a late radial and a stall.
use radar_workstation.Common.{◌+◌, ◌≤◌, ◌≡◌, List, [], ◌∷◌, none}
use mathlib.Core.List.Perm
use radar_workstation.Chunk.{intermediate, end_chunk}
use radar_workstation.Decoder.Radial.{start_of_elevation, end_of_elevation, end_of_volume}
use radar_workstation.Assembly.{
  VolumeAssembler, new, Call, start_chunk, chunk, tick, step, run_calls,
}
use radar_workstation.Assembly.Invariant.{IsConsistent}
use radar_workstation.Assembly.Preserved.{run_calls-IsConsistent}
use radar_workstation.Assembly.Events.{Replays, run_calls-Replays}
use radar_workstation.Assembly.Diagram.{observed, diagram, overdue, step-diagram}
use radar_workstation.Assembly.Conservation.{held, out, VisitsAll}
use radar_workstation.Assembly.Conservation.Runs.{total_fed}
use radar_workstation.Assembly.Contents
use radar_workstation.Assembly.Contents.Runs.{total_weight, run_calls-Accounted}
use radar_workstation.Tests.Samples.{insertion_order, sample_radial}

abbrev sample_calls : List Call
sample_calls =
    start_chunk none 1
    ∷ chunk intermediate
        (sample_radial 1 start_of_elevation
          ∷ sample_radial 1 end_of_elevation
          ∷ sample_radial 1 start_of_elevation
          ∷ sample_radial 2 start_of_elevation
          ∷ [])
        2
    ∷ tick 3
    ∷ chunk end_chunk (sample_radial 3 end_of_volume ∷ []) 4
    ∷ chunk intermediate (sample_radial 1 start_of_elevation ∷ []) 5
    ∷ tick 900
    ∷ []

insertion_order-VisitsAll : VisitsAll insertion_order
insertion_order-VisitsAll = λ entries. Perm.refl entries

run_calls-IsConsistent_example : IsConsistent (run_calls insertion_order sample_calls (new 720)).0
run_calls-IsConsistent_example = run_calls-IsConsistent insertion_order 720 sample_calls

run_calls-Replays_example :
    Replays []
      (run_calls insertion_order sample_calls (new 720)).1
      (run_calls insertion_order sample_calls (new 720)).0.closed_sweeps
run_calls-Replays_example = run_calls-Replays insertion_order 720 sample_calls tt

-- The weight is the elevation number.
run_calls-Accounted_example :
    let ran = run_calls insertion_order sample_calls (new 720) in
    (Contents.held (λ r. r.elevation_number) ran.0 + Contents.closed (λ r. r.elevation_number) ran.1
      ≤ total_weight (λ r. r.elevation_number) sample_calls)
    × (total_fed sample_calls ≡ held ran.0 + out ran.1)
run_calls-Accounted_example =
    run_calls-Accounted (λ r. r.elevation_number) insertion_order 720 sample_calls
      insertion_order-VisitsAll tt

abbrev sample_assembler : VolumeAssembler
sample_assembler = (run_calls insertion_order sample_calls (new 720)).0

step-diagram_example :
    observed (step insertion_order (tick 2000) sample_assembler)
    ≡ diagram sample_assembler.state (overdue sample_assembler) (tick 2000)
step-diagram_example =
    step-diagram insertion_order (tick 2000) sample_assembler
      (run_calls-IsConsistent insertion_order 720 sample_calls)
