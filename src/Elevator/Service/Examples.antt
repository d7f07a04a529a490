-- ===== src/Elevator/Service/Examples.antt =====
-- The theorems on the service, at the sample run.
use cop4610_project.Base.{
  ℕ, ◌+◌, ◌-◌, ◌%◌, ◌^◌, ◌<◌, ◌≡◌, ◌⊎◌, refl, true, false, some, ◌++◌, tally, sum_below,
}
use cop4610_project.Elevator.Types.{Building}
use cop4610_project.Elevator.Thread.{load, second_section}
use cop4610_project.Elevator.Invariant.{aboard}
use cop4610_project.Elevator.Invariant.Loading.{bound_for}
use cop4610_project.Elevator.System.{Phase, Step}
use cop4610_project.Elevator.System.Safety.{Reach-SystemOk}
use cop4610_project.Elevator.System.Sample.{queued, queued-Reach, riding, riding-Reach}
use cop4610_project.Elevator.Service.Measures.{queued as waiting_sum}
use cop4610_project.Elevator.Service.Refinement.{Reach-Shown, Step-refines}
use cop4610_project.Elevator.Service.Showing.{Shown}
use cop4610_project.Elevator.Service.Balance.{accepted, forgotten, brought, everybody_accounted}
use cop4610_project.Elevator.Service.Brought.{one}
use cop4610_project.Elevator.Service.Greedy.{greedy, load-greedy}
use cop4610_project.Elevator.Service.{Service, Answer}

-- The service with the bell hop aboard.
abbrev riding_service : Service
riding_service = (Reach-Shown riding-Reach).0

abbrev next_step :
    Step false riding
      (record riding { store = second_section true riding.store; phase = Phase.head })
next_step = Step.second true refl (λ h. refl)

Step-refines_example :
    (d : Service) × Answer next_step riding_service d
    × Shown (record riding { store = second_section true riding.store; phase = Phase.head }) d
Step-refines_example =
    Step-refines riding_service riding-Reach (Reach-Shown riding-Reach).1 next_step

everybody_accounted_example :
    (accepted riding-Reach
      ≡ tally one riding.pending
        + waiting_sum one riding.store.b
        + aboard one riding.store.b.e.p
        + sum_below 10 (brought riding-Reach)
        + forgotten riding-Reach)
    × ((i : ℕ) → i < 10 → (riding.store.b.f i).serviced ≡ brought riding-Reach i % 2 ^ 32)
    × ((false ≡ true) ⊎ (forgotten riding-Reach ≡ 0))
everybody_accounted_example = everybody_accounted riding-Reach

load-greedy_example :
    let m = queued.store in
    let c = m.b.e.current in
    let queue = (m.b.f c).waiting in
    let who = greedy (30 - m.b.e.w_units) (10 - m.b.e.p_units) m.b.e.direction queue in
    (b' : Building) × (load queue m.b ≡ some b')
    × ((b'.f c).waiting ≡ who.1)
    × ((i : ℕ) → b'.e.p i ≡ m.b.e.p i ++ bound_for i who.0)
load-greedy_example = load-greedy queued.store (Reach-SystemOk queued-Reach).2.store
