-- ===== src/Elevator/System/Examples.antt =====
-- The guarantees in the states of the sample run.
use cop4610_project.Base.{false, ℕ, ◌<◌, ◌+◌, ◌≡◌, refl, if◌then◌else◌, some, [], arith, occurs}
use cop4610_project.Elevator.Types.{Store}
use cop4610_project.Elevator.Exit.{free_passengers}
use cop4610_project.Elevator.System.Guarantees.{
  load_within_limits, floor_counters, blocks_accounted, exit_frees_all, LoadIsSafe, QueueIsCounted,
}
use cop4610_project.Elevator.Invariant.{placed}
use cop4610_project.Elevator.System.Sample.{queued, queued-Reach, riding, riding-Reach}

load_within_limits_example : LoadIsSafe riding.store.b.e
load_within_limits_example = load_within_limits riding-Reach

floor_counters_example : QueueIsCounted 0 (queued.store.b.f 0)
floor_counters_example = floor_counters queued-Reach 0 (omega arith)

blocks_accounted_example :
    placed 64 riding.store.b + occurs (λ q. q.node) 64 riding.pending
    ≡ (if riding.store.live 64 then 1 else 0)
blocks_accounted_example = blocks_accounted riding-Reach 64

exit_frees_all_example :
    (m' : Store) × (free_passengers riding.store ≡ some m')
    × ((a : ℕ) → m'.live a ≡ false)
    × ((i : ℕ) → i < 10 → ((m'.b.f i).waiting ≡ []) × (m'.b.e.p i ≡ []))
exit_frees_all_example = exit_frees_all riding-Reach refl
