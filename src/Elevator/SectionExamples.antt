-- ===== src/Elevator/SectionExamples.antt =====
-- The theorems on the sections and the calls of the elevator, at the sample run.
use cop4610_project.Base.{ℕ, ◌≡◌, refl, some, List, [], ◌∷◌, arith}
use cop4610_project.Elevator.Types.{State, Passenger, Building, Store}
use cop4610_project.Elevator.Thread.{unload, load, service}
use cop4610_project.Elevator.Requests.{begin_request}
use cop4610_project.Elevator.Invariant.{StoreOk}
use cop4610_project.Elevator.Invariant.Control.{steer, steer-StoreOk}
use cop4610_project.Elevator.Invariant.Unloading.{Unloaded, unload-Unloaded}
use cop4610_project.Elevator.Invariant.Loading.{Loaded, load-Loaded}
use cop4610_project.Elevator.Invariant.Servicing.{Serviced, service-Serviced}
use cop4610_project.Elevator.Invariant.Advancing.{Outcome, advance-Advanced}
use cop4610_project.Elevator.Invariant.Arguments.{Answered, begin_request-Answered}
use cop4610_project.Elevator.System.Safety.{pending_blocks, Reach-SystemOk}
use cop4610_project.Elevator.System.Sample.{
  result, bell_hop, requested, queued, queued-Reach, riding, riding-Reach,
}

abbrev pub queued_blocks : ℕ → ℕ
queued_blocks = pending_blocks queued (Reach-SystemOk queued-Reach).0

abbrev pub riding_blocks : ℕ → ℕ
riding_blocks = pending_blocks riding (Reach-SystemOk riding-Reach).0

pub queued-StoreOk : StoreOk queued_blocks queued.store
queued-StoreOk = (Reach-SystemOk queued-Reach).2.store

pub riding-StoreOk : StoreOk riding_blocks riding.store
riding-StoreOk = (Reach-SystemOk riding-Reach).2.store

service-Serviced_example :
    (m' : Store) × (service queued.store ≡ some m')
    × StoreOk queued_blocks m'
    × Serviced queued.store m'
service-Serviced_example = service-Serviced queued.store queued-StoreOk

load-Loaded_example :
    (b' : Building) × (taken : List Passenger) × (rest : List Passenger) × (load
        (bell_hop ∷ [])
        queued.store.b
      ≡ some b')
    × StoreOk queued_blocks (record (queued.store) { b = b' })
    × Loaded 0 taken rest queued.store.b b'
unfolding result
load-Loaded_example = load-Loaded (bell_hop ∷ []) 0 queued.store queued-StoreOk refl refl

-- The elevator has come to the fifth floor.
abbrev pub there : Store
there = steer State.up 4 5 0 1 riding.store

there-StoreOk : StoreOk riding_blocks there
there-StoreOk = steer-StoreOk riding-StoreOk State.up 4 5 0 1 (omega arith)

unload-Unloaded_example :
    (m' : Store) × (unload (bell_hop ∷ []) there ≡ some m')
    × StoreOk riding_blocks m'
    × Unloaded 4 there m'
unfolding result
unload-Unloaded_example = unload-Unloaded (bell_hop ∷ []) 4 there there-StoreOk refl refl

advance-Advanced_example : Outcome riding.store riding-StoreOk
advance-Advanced_example = advance-Advanced riding.store riding-StoreOk

begin_request-Answered_example :
    Answered requested.store (some 128) 3 2 9 (begin_request (some 128) 3 2 9 requested.store)
begin_request-Answered_example =
    begin_request-Answered requested.store (some 128) 3 2 9
      (record { type_int = omega arith; s_int = omega arith; d_int = omega arith })
