-- ===== src/Elevator/System.antt =====
-- The module at work: the kernel thread and the system calls of any number of processes, interleaved
-- between the critical sections in any order.
pub mod Start
pub mod Safety
pub mod Guarantees
pub mod Sample
mod Examples
use cop4610_project.Base.{
  ℕ, zero, ◌<◌, ◌≡◌, Bool, true, false, Option, none, some, List, [], ◌∷◌, ◌++◌,
}
use cop4610_project.Elevator.Types.{Passenger, Elevator, Building, Store}
use cop4610_project.Elevator.Building.{init_elevator, init_building}
use cop4610_project.Elevator.Thread.{first_section, second_section}
use cop4610_project.Elevator.Requests.{begin_request, finish_request, start_elevator, stop_elevator}
use cop4610_project.Elevator.Invariant.Requesting.{AreInts, IsFresh}

-- Where runElevator stands: at the head of its loop, between its sections, or returned.
pub data Phase : Type 0 where
  head between returned : Phase

-- `pending` holds the passengers of the calls of issue_request that wait for the lock.
pub record System : Type 0 where
  pub store : Store
  pub phase : Phase
  pub pending : List Passenger

-- A lock is taken, or, where signals are possible, interrupted.
abbrev pub Allowed : (signals : Bool) → (acquired : Bool) → Type 0
Allowed signals acquired = signals ≡ false → acquired ≡ true

pub data Step (signals : Bool) : System → System → Type 0 where
  first :
      {s : System} {m' : Store} (acquired : Bool)
      → s.phase ≡ Phase.head
      → Allowed signals acquired
      → first_section acquired s.store ≡ some m'
      → Step signals s (record s { store = m'; phase = Phase.between })
  second :
      {s : System} (acquired : Bool)
      → s.phase ≡ Phase.between
      → Allowed signals acquired
      → Step signals s (record s { store = second_section acquired s.store; phase = Phase.head })
  should_stop :
      {s : System} → s.phase ≡ Phase.head → Step signals s (record s { phase = Phase.returned })
  refuse :
      {s : System} {m' : Store} (block : Option ℕ) (p_type s_floor d_floor : ℕ)
      → AreInts p_type s_floor d_floor
      → IsFresh s.store block
      → begin_request block p_type s_floor d_floor s.store ≡ some (m', none)
      → Step signals s (record s { store = m' })
  request :
      {s : System} {m' : Store} {p : Passenger} (block : Option ℕ) (p_type s_floor d_floor : ℕ)
      → AreInts p_type s_floor d_floor
      → IsFresh s.store block
      → begin_request block p_type s_floor d_floor s.store ≡ some (m', some p)
      → Step signals s (record s { store = m'; pending = p ∷ s.pending })
  enqueue :
      {s : System} {m' : Store} (acquired : Bool) (before after : List Passenger) (p : Passenger)
      → s.pending ≡ before ++ p ∷ after
      → Allowed signals acquired
      → finish_request acquired p s.store ≡ some m'
      → Step signals s (record s { store = m'; pending = before ++ after })
  start :
      {s : System} (acquired : Bool)
      → Allowed signals acquired
      → Step signals s (record s { store = (start_elevator acquired s.store).0 })
  stop :
      {s : System} (acquired : Bool)
      → Allowed signals acquired
      → Step signals s (record s { store = (stop_elevator acquired s.store).0 })

-- The module after elevator_init, whatever the memory of its variables held before.
abbrev pub initial : Building → System
initial b = record {
  store = record { b = init_building b (init_elevator b.e); live = λ a. false };
  phase = Phase.head;
  pending = [];
}

pub data Reach (signals : Bool) (b : Building) : System → Type 0 where
  begin : Reach signals b (initial b)
  next : {s t : System} → Reach signals b s → Step signals s t → Reach signals b t

-- The states that follow one another from a given one.
pub data Steps (signals : Bool) (s : System) : System → Type 0 where
  here : Steps signals s s
  then_step : {t u : System} → Steps signals s t → Step signals t u → Steps signals s u
