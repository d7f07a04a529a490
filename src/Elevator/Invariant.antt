-- ===== src/Elevator/Invariant.antt =====
-- The invariant of the elevator, the building and the passenger blocks, which every section of the
-- thread and every system call keeps.
pub mod Unlink
pub mod Counters
pub mod Alighting
pub mod Unloading
pub mod Boarding
pub mod Loading
pub mod Control
pub mod Servicing
pub mod Advancing
pub mod Arriving
pub mod Requesting
pub mod Arguments
use cop4610_project.Base.{
  ℕ, ◌+◌, ◌%◌, ◌^◌, ◌≤◌, ◌<◌, ◌≡◌, ◌≢◌, ◌⊎◌, if◌then◌else◌, List, All, tally, occurs, sum_below,
}
use cop4610_project.Elevator.Types.{
  State, offline, unset, PType, adult, child, room, bell, unknown, Passenger, Elevator, Floors,
  Building, Store,
}
use cop4610_project.Elevator.Passengers.{weight_of, pass_of}

-- One of the four named passenger types.
abbrev pub IsKnown : PType → Type 0
IsKnown (unknown n) = ⊥
IsKnown _ = Unit

abbrev pub WaitsAt : ℕ → Passenger → Type 0
WaitsAt i p = IsKnown p.kind × (p.s_floor ≡ i) × (p.d_floor < 10)

abbrev pub RidesTo : ℕ → Passenger → Type 0
RidesTo i p = IsKnown p.kind × (p.d_floor ≡ i) × (p.s_floor < 10)

-- The six measures that the counters of a floor and of the elevator add up.
abbrev pub weight : Passenger → ℕ
weight p = weight_of p.kind

abbrev pub size : Passenger → ℕ
size p = pass_of p.kind

unfoldable pub adult_of : PType → ℕ
adult_of adult = 1
adult_of _ = 0

unfoldable pub child_of : PType → ℕ
child_of child = 1
child_of _ = 0

unfoldable pub room_of : PType → ℕ
room_of room = 1
room_of _ = 0

unfoldable pub bell_of : PType → ℕ
bell_of bell = 1
bell_of _ = 0

abbrev pub is_adult : Passenger → ℕ
is_adult p = adult_of p.kind

abbrev pub is_child : Passenger → ℕ
is_child p = child_of p.kind

abbrev pub is_room : Passenger → ℕ
is_room p = room_of p.kind

abbrev pub is_bell : Passenger → ℕ
is_bell p = bell_of p.kind

-- The counters of a floor are those of its waiting list, modulo 2 ^ 32.
pub record FloorsOk (i : ℕ) (fl : Floors) : Type 0 where
  pub queue : All (WaitsAt i) fl.waiting
  pub level : fl.level ≡ i
  pub w_units : fl.w_units ≡ tally weight fl.waiting % 2 ^ 32
  pub p_units : fl.p_units ≡ tally size fl.waiting % 2 ^ 32
  pub adults : fl.adults ≡ tally is_adult fl.waiting % 2 ^ 32
  pub children : fl.children ≡ tally is_child fl.waiting % 2 ^ 32
  pub rooms : fl.rooms ≡ tally is_room fl.waiting % 2 ^ 32
  pub bells : fl.bells ≡ tally is_bell fl.waiting % 2 ^ 32
  pub serviced : fl.serviced < 2 ^ 32

-- A measure of everybody on the elevator.
abbrev pub aboard : (Passenger → ℕ) → (ℕ → List Passenger) → ℕ
aboard g p = sum_below 10 (λ i. tally g (p i))

-- The counters of the elevator are those of its ten lists, and they are within the limits.
pub record ElevatorOk (e : Elevator) : Type 0 where
  pub queues : (i : ℕ) → i < 10 → All (RidesTo i) (e.p i)
  pub w_units : e.w_units ≡ aboard weight e.p
  pub p_units : e.p_units ≡ aboard size e.p
  pub adults : e.adults ≡ aboard is_adult e.p
  pub children : e.children ≡ aboard is_child e.p
  pub rooms : e.rooms ≡ aboard is_room e.p
  pub bells : e.bells ≡ aboard is_bell e.p
  pub w_max : e.w_units ≤ 30
  pub p_max : e.p_units ≤ 10

-- The sweep: the next floor is a neighbour, in the direction of travel. After a restart on the
-- bottom floor the direction may still be the old one.
pub record MotionOk (e : Elevator) : Type 0 where
  pub current : e.current < 10
  pub next : e.next < 10
  pub heading :
      ((e.direction ≡ 1) × (e.next ≡ e.current + 1))
      ⊎ ((e.direction ≡ 0) × (e.current ≡ e.next + 1))
      ⊎ ((e.direction ≡ 0) × (e.current ≡ 0) × (e.next ≡ 1))
  pub shutdown : e.shutdown < 2

-- How often the node at an address stands in a list of the building.
abbrev pub placed : ℕ → Building → ℕ
placed a b =
    sum_below 10 (λ i. occurs (λ q. q.node) a (b.f i).waiting)
    + sum_below 10 (λ i. occurs (λ q. q.node) a (b.e.p i))

-- A block is allocated if and only if its node stands in one list, once, or it has leaked.
abbrev pub BlocksOk : (leaked : ℕ → ℕ) → Store → Type 0
BlocksOk leaked m = (a : ℕ) → placed a m.b + leaked a ≡ (if m.live a then 1 else 0)

pub record StoreOk (leaked : ℕ → ℕ) (m : Store) : Type 0 where
  pub floors : (i : ℕ) → i < 10 → FloorsOk i (m.b.f i)
  pub elevator : ElevatorOk m.b.e
  pub motion : MotionOk m.b.e
  pub blocks : BlocksOk leaked m
