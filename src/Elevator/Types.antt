-- ===== src/Elevator/Types.antt =====
-- The types of part3/elevator/elevator.h. An `int` is its bit pattern, a number below 2 ^ 32.
use cop4610_project.Base.{ℕ, Bool, List}

-- STATE, and the values of its integer that have no name
pub data State : Type 0 where
  idle offline loading up down : State
  unset : ℕ → State

-- P_TYPE, and the values of its integer that have no name
pub data PType : Type 0 where
  adult child room bell : PType
  unknown : ℕ → PType

-- A passenger is identified by the address of its `node`, which is the block `kmalloc` returned.
pub record Passenger : Type 0 where
  pub node : ℕ
  pub kind : PType
  pub s_floor : ℕ
  pub d_floor : ℕ

pub record Elevator : Type 0 where
  pub p : ℕ → List Passenger
  pub status : State
  pub w_units : ℕ
  pub p_units : ℕ
  pub adults : ℕ
  pub children : ℕ
  pub rooms : ℕ
  pub bells : ℕ
  pub current : ℕ
  pub next : ℕ
  pub shutdown : ℕ
  pub direction : ℕ

pub record Floors : Type 0 where
  pub waiting : List Passenger
  pub level : ℕ
  pub w_units : ℕ
  pub p_units : ℕ
  pub adults : ℕ
  pub children : ℕ
  pub rooms : ℕ
  pub bells : ℕ
  pub serviced : ℕ

-- The pointer `e` of a building always points to the one elevator, which is therefore a part of it.
pub record Building : Type 0 where
  pub f : ℕ → Floors
  pub e : Elevator

-- The building with the passenger blocks that are allocated.
pub record Store : Type 0 where
  pub b : Building
  pub live : ℕ → Bool

abbrev pub max_w : ℕ
max_w = 30

abbrev pub max_p : ℕ
max_p = 10

abbrev pub m_sleep : ℕ
m_sleep = 2

abbrev pub l_sleep : ℕ
l_sleep = 1
