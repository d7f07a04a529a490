-- ===== src/Elevator/Mutex.antt =====
-- The mutex of part3/elevator/elevator.c: the thread and the calls of any number of processes, in
-- steps smaller than the critical sections, with interrupted locks. What runElevator does with
-- one passenger in a loop, its second section, and the body of a call are one step each, and so is
-- the start of issue_request, which takes no lock. A call of elevator_open is shown from the point
-- where it has its buffer.
pub mod Accesses
pub mod Beside
pub mod Atomic
pub mod Moves
pub mod Calls
pub mod Waiting
pub mod Acting
pub mod Interrupting
pub mod Sections
pub mod Texts
pub mod Releasing
pub mod Unlocking
pub mod Overlapping
mod Examples
use cop4610_project.Base.{
  ℕ, zero, ◌+◌, ◌<◌, ◌≡◌, ◌≢◌, ◌⊎◌, Bool, true, false, not, ◌&&◌, ◌||◌, ◌==◌, if◌then◌else◌, Option,
  none, some, ◌>>=◌, List, [], ◌∷◌, ◌++◌, Text, get_elem?, is_empty, tally,
}
use cop4610_project.Elevator.Types.{loading, Passenger, Elevator, Building, Store}
use cop4610_project.Elevator.Building.{init_elevator, init_building, del_pass, move_pass}
use cop4610_project.Elevator.Passengers.{can_fit, p_direction}
use cop4610_project.Elevator.Checks.{check_floor}
use cop4610_project.Elevator.Thread.{is_offline, set_status, second_section}
use cop4610_project.Elevator.Requests.{begin_request, finish_request, start_elevator, stop_elevator}
use cop4610_project.Elevator.Proc.{print_stats}
use cop4610_project.Elevator.Invariant.Requesting.{AreInts, IsFresh}

-- Where the first section of runElevator stands: at its test of the status, in the first loop with
-- the passengers that it still visits, at the test of the queue, in the second loop, or at its end.
pub data Rest : Type 0 where
  entering boarding finished : Rest
  unloading letting_in : List Passenger → Rest

-- The next access of the section. The loop over an empty list does nothing, as where it is skipped.
unfoldable pub access : Rest → Store → Option (Rest × Store)
access Rest.entering m = if is_offline m.b.e.status then some (Rest.finished, m) else do
  fl ← get_elem? m.b.f m.b.e.current
  q ← get_elem? m.b.e.p m.b.e.current
  if not (is_empty fl.waiting) || not (is_empty q)
      then some (Rest.unloading q, set_status loading m)
      else some (Rest.finished, m)
access (Rest.unloading []) m = some (Rest.boarding, m)
access (Rest.unloading (p ∷ ps)) m = do
  m' ← if p.d_floor == m.b.e.current then del_pass m p else some m
  some (Rest.unloading ps, m')
access Rest.boarding m = do
  here ← check_floor m.b m.b.e.current
  fl ← get_elem? m.b.f m.b.e.current
  if here && not (m.b.e.shutdown == 1)
      then some (Rest.letting_in fl.waiting, m)
      else some (Rest.finished, m)
access (Rest.letting_in []) m = some (Rest.finished, m)
access (Rest.letting_in (p ∷ ps)) m =
    if can_fit p m.b.e && (p_direction p == m.b.e.direction)
    then (do
      b' ← if p.s_floor == m.b.e.current then move_pass m.b p else some m.b
      some (Rest.letting_in ps, record m { b = b' }))
    else some (Rest.finished, m)
access Rest.finished m = some (Rest.finished, m)

-- Where the thread stands: `in_second` holds the mutex before the second section, `moved` after it.
pub data Place : Type 0 where
  head between in_second moved returned : Place
  in_first : Rest → Place

-- Where a call stands that got past its start. `asking`, `starting`, `stopping` and `opening` wait for
-- the mutex in issue_request, start_elevator, stop_elevator and elevator_open; `adding`, `starts`,
-- `stops` and `printing` hold it before the body, `done` and `printed` after it; `shown` has a text.
pub data Call : Type 0 where
  asking adding : Passenger → Call
  starting starts stopping stops opening printing done : Call
  printed shown : Text → Call

unfoldable pub enters : Call → Option Call
enters (Call.asking p) = some (Call.adding p)
enters Call.starting = some Call.starts
enters Call.stopping = some Call.stops
enters Call.opening = some Call.printing
enters _ = none

-- The body of a call that holds the mutex. A text of printStats is never empty, so elevator_open leaves
-- its loop after it.
unfoldable pub acts : Call → Store → Option (Store × Call)
acts (Call.adding p) m = do m' ← finish_request true p m; some (m', Call.done)
acts Call.starts m = some ((start_elevator true m).0, Call.done)
acts Call.stops m = some ((stop_elevator true m).0, Call.done)
acts Call.printing m = some (m, Call.printed (print_stats m.b))
acts _ m = none

-- What is left of a call after mutex_unlock.
unfoldable pub leaves : Call → Option (List Call)
leaves Call.done = some []
leaves (Call.printed text) = some (Call.shown text ∷ [])
leaves _ = none

-- What an interrupted mutex_lock_interruptible leaves of a call: elevator_open tries again, and
-- issue_request returns without its passenger.
unfoldable pub interrupted : Call → Option (List Call)
interrupted (Call.asking p) = some []
interrupted Call.starting = some []
interrupted Call.stopping = some []
interrupted Call.opening = some (Call.opening ∷ [])
interrupted _ = none

-- Who holds the mutex.
unfoldable pub thread_holds : Place → ℕ
thread_holds (Place.in_first r) = 1
thread_holds Place.in_second = 1
thread_holds Place.moved = 1
thread_holds _ = 0

unfoldable pub holds : Call → ℕ
holds (Call.adding p) = 1
holds Call.starts = 1
holds Call.stops = 1
holds Call.printing = 1
holds Call.done = 1
holds (Call.printed text) = 1
holds _ = 0

pub record Machine : Type 0 where
  pub store : Store
  pub locked : Bool
  pub place : Place
  pub calls : List Call

-- How many are between their mutex_lock_interruptible and their mutex_unlock.
abbrev pub holders : Machine → ℕ
holders f = thread_holds f.place + tally holds f.calls

-- `unheld` says whether the mutex is locked after a mutex_unlock by somebody who does not hold it, from
-- whether it was before; it is `none` where no lock is interrupted.
pub data Access (unheld : Option (Bool → Bool)) : Machine → Machine → Type 0 where
  lock_first :
      {f : Machine}
      → f.place ≡ Place.head
      → f.locked ≡ false
      → Access unheld f (record f { locked = true; place = Place.in_first Rest.entering })
  in_section :
      {f : Machine} (r r' : Rest) (m' : Store)
      → f.place ≡ Place.in_first r
      → r ≢ Rest.finished
      → access r f.store ≡ some (r', m')
      → Access unheld f (record f { store = m'; place = Place.in_first r' })
  unlock_first :
      {f : Machine}
      → f.place ≡ Place.in_first Rest.finished
      → Access unheld f (record f { locked = false; place = Place.between })
  lock_second :
      {f : Machine}
      → f.place ≡ Place.between
      → f.locked ≡ false
      → Access unheld f (record f { locked = true; place = Place.in_second })
  move :
      {f : Machine}
      → f.place ≡ Place.in_second
      → Access unheld f (record f { store = second_section true f.store; place = Place.moved })
  unlock_second :
      {f : Machine}
      → f.place ≡ Place.moved
      → Access unheld f (record f { locked = false; place = Place.head })
  should_stop :
      {f : Machine} → f.place ≡ Place.head → Access unheld f (record f { place = Place.returned })
  -- start_elevator, stop_elevator or elevator_open is called
  call :
      {f : Machine} (c : Call)
      → (c ≡ Call.starting) ⊎ (c ≡ Call.stopping) ⊎ (c ≡ Call.opening)
      → Access unheld f (record f { calls = c ∷ f.calls })
  -- The start of issue_request, which takes no lock; a refused request leaves nothing behind.
  request :
      {f : Machine} {m' : Store} {p : Passenger} (block : Option ℕ) (p_type s_floor d_floor : ℕ)
      → AreInts p_type s_floor d_floor
      → IsFresh f.store block
      → begin_request block p_type s_floor d_floor f.store ≡ some (m', some p)
      → Access unheld f (record f { store = m'; calls = Call.asking p ∷ f.calls })
  enter :
      {f : Machine} (c c' : Call) (before after : List Call)
      → f.calls ≡ before ++ c ∷ after
      → f.locked ≡ false
      → enters c ≡ some c'
      → Access unheld f (record f { locked = true; calls = before ++ c' ∷ after })
  act :
      {f : Machine} (c c' : Call) (m' : Store) (before after : List Call)
      → f.calls ≡ before ++ c ∷ after
      → acts c f.store ≡ some (m', c')
      → Access unheld f (record f { store = m'; calls = before ++ c' ∷ after })
  leave :
      {f : Machine} (c : Call) (rest before after : List Call)
      → f.calls ≡ before ++ c ∷ after
      → leaves c ≡ some rest
      → Access unheld f (record f { locked = false; calls = before ++ rest ++ after })
  -- An interrupted mutex_lock_interruptible, and the mutex_unlock after it.
  interrupt_first :
      {f : Machine} (unlock : Bool → Bool)
      → unheld ≡ some unlock
      → f.place ≡ Place.head
      → Access unheld f (record f { locked = unlock f.locked; place = Place.between })
  interrupt_second :
      {f : Machine} (unlock : Bool → Bool)
      → unheld ≡ some unlock
      → f.place ≡ Place.between
      → Access unheld f (record f { locked = unlock f.locked; place = Place.head })
  interrupt :
      {f : Machine} (unlock : Bool → Bool) (c : Call) (rest before after : List Call)
      → unheld ≡ some unlock
      → f.calls ≡ before ++ c ∷ after
      → interrupted c ≡ some rest
      → Access unheld f (record f { locked = unlock f.locked; calls = before ++ rest ++ after })

-- The module after elevator_init.
abbrev pub booted : Building → Machine
booted b = record {
  store = record { b = init_building b (init_elevator b.e); live = λ a. false };
  locked = false;
  place = Place.head;
  calls = [];
}

pub data Runs (unheld : Option (Bool → Bool)) (b : Building) : Machine → Type 0 where
  begin : Runs unheld b (booted b)
  next : {f g : Machine} → Runs unheld b f → Access unheld f g → Runs unheld b g
