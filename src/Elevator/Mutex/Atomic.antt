-- ===== src/Elevator/Mutex/Atomic.antt =====
-- The accesses under the mutex as whole sections of Elevator/System.
use mathlib.Core.Option.{some-injective}
use mathlib.Core.List.{append_assoc}
use cop4610_project.Base.{
  Bool, ℕ, ◌≤◌, ◌≡◌, refl, ap, sym, ◌∙◌, Bool, true, false, if◌then◌else◌, some, List, [], ◌∷◌,
  ◌++◌, arith,
}
use cop4610_project.Elevator.Types.{Passenger, Building}
use cop4610_project.Elevator.System.{Phase, System, Reach}
use cop4610_project.Elevator.Mutex.{Rest, Place, Call, thread_holds, Machine, holders}
use cop4610_project.Elevator.Mutex.Accesses.{run_rest}

-- What is left of a first section that was begun.
abbrev pub rest_of : Place → Rest
rest_of (Place.in_first r) = r
rest_of _ = Rest.finished

-- A first section counts as done from its beginning on, a second one from its move on.
abbrev pub phase_of : Place → Phase
phase_of Place.head = Phase.head
phase_of (Place.in_first r) = Phase.between
phase_of Place.between = Phase.between
phase_of Place.in_second = Phase.between
phase_of Place.moved = Phase.head
phase_of Place.returned = Phase.returned

abbrev pub wants : Call → List Passenger
wants (Call.asking p) = p ∷ []
wants (Call.adding p) = p ∷ []
wants _ = []

-- The passengers of the calls that wait for the mutex, or hold it and have not added them.
unfoldable pub asks : List Call → List Passenger
asks [] = []
asks (c ∷ cs) = wants c ++ asks cs

pub asks-append : (l k : List Call) → asks (l ++ k) ≡ asks l ++ asks k
unfolding asks
asks-append [] k = refl
asks-append (c ∷ cs) k =
    ap (λ r. wants c ++ r) (asks-append cs k) ∙ sym (append_assoc (wants c) (asks cs) (asks k))

abbrev pub flag : Bool → ℕ
flag v = if v then 1 else 0

-- A state between whole sections that stands for a state between accesses.
pub record Matches (signals : Bool) (b : Building) (f : Machine) (s : System) : Type 0 where
  pub reach : Reach signals b s
  pub exclusion : holders f ≡ flag f.locked
  pub pending : s.pending ≡ asks f.calls
  pub phase : s.phase ≡ phase_of f.place
  pub store : run_rest (rest_of f.place) f.store ≡ some s.store

abbrev pub Matched : Bool → Building → Machine → Type 0
Matched signals b f = (s : System) × Matches signals b f s

pub idle_thread : (place : Place) → thread_holds place ≡ 0 → rest_of place ≡ Rest.finished
unfolding thread_holds
idle_thread (Place.in_first r) h = absurd (omega (arith, h))
idle_thread Place.head h = refl
idle_thread _ h = refl

-- Where the thread does not hold the mutex, the stores are the same.
pub same_store :
    {signals : Bool} {b : Building} {f : Machine} {s : System}
    → Matches signals b f s
    → rest_of f.place ≡ Rest.finished
    → f.store ≡ s.store
unfolding run_rest
same_store {f = f} {s = s} m idle =
    some-injective f.store s.store (ap (λ r. run_rest r f.store) (sym idle) ∙ m.store)

pub flag-le : (v : Bool) → flag v ≤ 1
flag-le true = omega arith
flag-le false = omega arith
