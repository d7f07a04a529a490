-- ===== src/Elevator/Thread.antt =====
-- part3/elevator/elevator.c: runElevator, as its two critical sections. `acquired` says whether
-- mutex_lock_interruptible returned 0; the sleeps between the sections let others run.
use cop4610_project.Base.{
  Bool, true, false, not, ◌&&◌, ◌||◌, ◌==◌, if◌then◌else◌, Option, some, List, [], ◌∷◌, add32,
  sub32, get_elem?, ◌>>=◌, is_empty,
}
use cop4610_project.Elevator.Types.{
  State, idle, offline, loading, up, down, Passenger, Elevator, Building, Store,
}
use cop4610_project.Elevator.Passengers.{can_fit, p_direction}
use cop4610_project.Elevator.Building.{del_pass, move_pass}
use cop4610_project.Elevator.Checks.{check_floor, check_building, check_elevator}

abbrev pub is_offline : State → Bool
is_offline offline = true
is_offline _ = false

abbrev pub set_status : State → Store → Store
set_status s m = record m { b = record (m.b) { e = record (m.b.e) { status = s } } }

-- list_for_each_safe over the passengers for the current floor: the body unlinks no other node, so
-- the nodes visited are those of the list at the start.
unfoldable pub unload : List Passenger → Store → Option Store
unload [] m = some m
unload (p ∷ ps) m = do
  m' ← if p.d_floor == m.b.e.current then del_pass m p else some m
  unload ps m'

-- list_for_each_safe over the waiting passengers, with its `break`
unfoldable pub load : List Passenger → Building → Option Building
load [] b = some b
load (p ∷ ps) b =
    let step : Option Building = if p.s_floor == b.e.current then move_pass b p else some b in
    let rest : Option Building = step >>= load ps in
    if can_fit p b.e && (p_direction p == b.e.direction) then rest else some b

unfoldable pub unload_floor : Store → Option Store
unfolding unload
unload_floor m = do
  q ← get_elem? m.b.e.p m.b.e.current
  if not (is_empty q) then unload q m else some m

unfoldable pub load_floor : Store → Option Store
unfolding load check_floor
load_floor m = do
  here ← check_floor m.b m.b.e.current
  fl ← get_elem? m.b.f m.b.e.current
  if here && not (m.b.e.shutdown == 1)
      then (do b' ← load fl.waiting m.b; some (record m { b = b' }))
      else some m

-- What the first section does under the lock.
unfoldable pub service : Store → Option Store
service m = if is_offline m.b.e.status then some m else do
  fl ← get_elem? m.b.f m.b.e.current
  q ← get_elem? m.b.e.p m.b.e.current
  if not (is_empty fl.waiting) || not (is_empty q)
      then (do m' ← unload_floor (set_status loading m); load_floor m')
      else some m

-- The last branch of the second section: the next floor of the sweep.
unfoldable pub travel : Elevator → Elevator
travel e =
    if e.next == 0
    then record e { current = e.next; next = add32 e.next 1; direction = 1; status = up }
    else if e.next == 9
    then record e { current = e.next; next = sub32 e.next 1; direction = 0; status = down }
    else if e.direction == 1
    then record e { status = up; current = e.next; next = add32 e.next 1 }
    else record e { status = down; current = e.next; next = sub32 e.next 1 }

-- What the second section does under the lock.
unfoldable pub advance : Building → Building
unfolding travel check_building check_elevator
advance b =
    let waiting = check_building b in
    let servicing = check_elevator b.e in
    if is_offline b.e.status
    then b
    else if not servicing && not waiting
    then record b { e = record (b.e) { status = idle } }
    else if not servicing && not (b.e.shutdown == 0)
    then record b { e = record (b.e) { status = offline } }
    else record b { e = travel b.e }

unfoldable pub first_section : Bool → Store → Option Store
first_section acquired m = if acquired then service m else some m

unfoldable pub second_section : Bool → Store → Store
second_section acquired m = if acquired then record m { b = advance m.b } else m

-- The loop, undisturbed, for one round per element, until kthread_should_stop.
unfoldable pub run_elevator : List (Bool × Bool) → Store → Option Store
run_elevator [] m = some m
run_elevator ((one, two) ∷ rounds) m = do
  m' ← first_section one m
  run_elevator rounds (second_section two m')
