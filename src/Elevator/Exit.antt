-- ===== src/Elevator/Exit.antt =====
-- part3/elevator/elevator.c: elevator_exit, what it does to the passengers that are left.
pub mod Removing
pub mod Freeing
use cop4610_project.Base.{
  ℕ, zero, suc, ◌+◌, not, if◌then◌else◌, Option, some, List, [], ◌∷◌, ◌>>=◌, max_floor, is_empty,
}
use cop4610_project.Elevator.Types.{Passenger, Store}
use cop4610_project.Elevator.Building.{list_del, kfree}

-- list_for_each_safe with list_del and kfree in its body
unfoldable pub free_list : List Passenger → Store → Option Store
free_list [] m = some m
free_list (p ∷ ps) m = do m' ← kfree p.node (record m { b = list_del p.node m.b }); free_list ps m'

unfoldable pub free_floor : ℕ → Store → Option Store
free_floor i m = do
  m' ← if not (is_empty (m.b.e.p i)) then free_list (m.b.e.p i) m else some m
  if not (is_empty (m'.b.f i).waiting) then free_list (m'.b.f i).waiting m' else some m'

-- The loop over the floors, from floor `i` for `n` rounds.
unfoldable pub free_floors : ℕ → ℕ → Store → Option Store
free_floors zero i m = some m
free_floors (suc n) i m = do m' ← free_floor i m; free_floors n (i + 1) m'

unfoldable pub free_passengers : Store → Option Store
free_passengers = free_floors max_floor 0
