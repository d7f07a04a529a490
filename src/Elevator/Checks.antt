-- ===== src/Elevator/Checks.antt =====
-- part3/elevator/elevator.h: the tests on the lists, `find`, and the name of the state.
use Prim.Native.String.{String}
use cop4610_project.Base.{
  ℕ, zero, suc, ◌+◌, Bool, true, false, not, ◌&&◌, ◌==◌, if◌then◌else◌, Option, none, some, List,
  max_floor, get_elem?, ◌>>=◌, is_empty,
}
use cop4610_project.Elevator.Types.{
  State, idle, offline, loading, up, down, unset, PType, adult, child, room, bell, unknown,
  Passenger, Elevator, Floors, Building,
}
use cop4610_project.Elevator.Passengers.{can_fit, p_direction}

unfoldable pub state_name : State → String
state_name idle = "Idle"
state_name offline = "Offline"
state_name loading = "Loading"
state_name up = "Up"
state_name down = "Down"
state_name (unset n) = "Not Set"

unfoldable pub get_state : Elevator → String
unfolding state_name
get_state e = state_name e.status

unfoldable pub check_floor : Building → ℕ → Option Bool
check_floor b i = do fl ← get_elem? b.f i; some (not (is_empty fl.waiting))

-- The loop that checkBuilding and checkElevator share: from index `i`, for `n` rounds.
unfoldable pub occupied_from : ℕ → (ℕ → List Passenger) → ℕ → Bool
occupied_from zero q i = false
occupied_from (suc n) q i = if not (is_empty (q i)) then true else occupied_from n q (i + 1)

unfoldable pub check_building : Building → Bool
check_building b = occupied_from max_floor (λ i. (b.f i).waiting) 0

unfoldable pub check_elevator : Elevator → Bool
check_elevator e = occupied_from max_floor e.p 0

-- P_TYPE of an integer
unfoldable pub p_type_of : ℕ → PType
p_type_of n =
    if n == 0
    then adult
    else if n == 1
    then child
    else if n == 2
    then room
    else if n == 3
    then bell
    else unknown n

-- `list_entry` of a list's head itself: `waiting` is the first member of a floor and `node` that of
-- a passenger, so the members behind them overlap: `level`, `w_units`, `p_units` are read as `type`,
-- `s_floor`, `d_floor`.
unfoldable pub entry_of_head : ℕ → Floors → Passenger
unfolding p_type_of
entry_of_head address fl = record {
  node = address;
  kind = p_type_of fl.level;
  s_floor = fl.w_units;
  d_floor = fl.p_units;
}

-- `head_address i` is the address of the list head of floor `i`. The outer option is a fault.
unfoldable pub find : (ℕ → ℕ) → Building → Option (Option Passenger)
unfolding entry_of_head
find head_address b = do
  fl ← get_elem? b.f b.e.current
  let p = entry_of_head (head_address b.e.current) fl
  some (
      if not (is_empty fl.waiting)
      then (if can_fit p b.e && (p_direction p == b.e.direction) then some p else none)
      else none)
