-- ===== src/Elevator/Mutex/Sections.antt =====
-- The critical sections are atomic, and what a process prints is a state between them.
use cop4610_project.Base.{
  Option, none, some, Bool, ◌≡◌, ◌⊎◌, inl, inr, refl, ap, Bool-cases, true, false, if◌then◌else◌,
  arith, tally,
}
use cop4610_project.Elevator.Types.{Building}
use cop4610_project.Elevator.System.{System, Reach, initial}
use cop4610_project.Elevator.Mutex.{thread_holds, Machine, holders, Access, Runs}
use cop4610_project.Elevator.Mutex.Accesses.{run_rest}
use cop4610_project.Elevator.Mutex.Atomic.{asks, flag, Matched, idle_thread, same_store}
use cop4610_project.Elevator.Mutex.Moves.{
  lock_first-Matched, in_section-Matched, unlock_first-Matched, lock_second-Matched, move-Matched,
  unlock_second-Matched, should_stop-Matched,
}
use cop4610_project.Elevator.Mutex.Moves.{interrupt_first-Matched, interrupt_second-Matched}
use cop4610_project.Elevator.Mutex.Acting.{act-Matched}
use cop4610_project.Elevator.Mutex.Interrupting.{interrupt-Matched}
use cop4610_project.Elevator.Mutex.Waiting.{
  call-Matched, request-Matched, enter-Matched, leave-Matched,
}

-- Whether locks are interrupted.
abbrev pub signals_of : Option (Bool → Bool) → Bool
signals_of none = false
signals_of (some unlock) = true

-- A mutex_unlock by somebody who does not hold the mutex has no effect.
abbrev pub IsHarmless : Option (Bool → Bool) → Type 0
IsHarmless unheld = (unlock : Bool → Bool) → unheld ≡ some unlock → (v : Bool) → unlock v ≡ v

signals_on :
    (unheld : Option (Bool → Bool)) (unlock : Bool → Bool)
    → unheld ≡ some unlock
    → signals_of unheld ≡ true
signals_on unheld unlock e = ap signals_of e

Access-Matched :
    {unheld : Option (Bool → Bool)} {b : Building} {f g : Machine}
    → IsHarmless unheld
    → Matched (signals_of unheld) b f
    → Access unheld f g
    → Matched (signals_of unheld) b g
Access-Matched harmless (s, m) (Access.lock_first at free) = lock_first-Matched m at free
Access-Matched harmless (s, m) (Access.in_section r r' m' at more run) =
    in_section-Matched m r r' m' at run
Access-Matched harmless (s, m) (Access.unlock_first at) = unlock_first-Matched m at
Access-Matched harmless (s, m) (Access.lock_second at free) = lock_second-Matched m at free
Access-Matched harmless (s, m) (Access.move at) = move-Matched m at
Access-Matched harmless (s, m) (Access.unlock_second at) = unlock_second-Matched m at
Access-Matched harmless (s, m) (Access.should_stop at) = should_stop-Matched m at
Access-Matched harmless (s, m) (Access.call c what) = call-Matched m c what
Access-Matched harmless (s, m) (Access.request {m'} {p} block t z d ints fresh run) =
    request-Matched m m' p block t z d ints fresh run
Access-Matched harmless (s, m) (Access.enter c c' before after at free how) =
    enter-Matched m c c' before after at free how
Access-Matched harmless (s, m) (Access.act c c' m' before after at run) =
    act-Matched m c c' m' before after at run
Access-Matched harmless (s, m) (Access.leave c rest before after at how) =
    leave-Matched m c rest before after at how
Access-Matched {unheld} {f = f} harmless (s, m) (Access.interrupt_first unlock given at) =
    interrupt_first-Matched m unlock (harmless unlock given f.locked)
      (signals_on unheld unlock given) at
Access-Matched {unheld} {f = f} harmless (s, m) (Access.interrupt_second unlock given at) =
    interrupt_second-Matched m unlock (harmless unlock given f.locked)
      (signals_on unheld unlock given) at
Access-Matched {unheld} {f = f} harmless (s, m)
      (Access.interrupt unlock c rest before after given at how) =
    interrupt-Matched m unlock c rest before after (harmless unlock given f.locked)
      (signals_on unheld unlock given) at how

pub Runs-Matched :
    {unheld : Option (Bool → Bool)} {b : Building} {f : Machine}
    → IsHarmless unheld
    → Runs unheld b f
    → Matched (signals_of unheld) b f
unfolding run_rest asks thread_holds tally
Runs-Matched {b = b} harmless Runs.begin = (
  initial b,
  record { reach = Reach.begin; exclusion = refl; pending = refl; phase = refl; store = refl },
)
Runs-Matched harmless (Runs.next r a) = Access-Matched harmless (Runs-Matched harmless r) a

unlocked_thread :
    (f : Machine) → f.locked ≡ false → holders f ≡ flag f.locked → thread_holds f.place ≡ 0
unlocked_thread f free e = omega (arith, e, ap flag free)

-- Where no lock is interrupted, or a mutex_unlock by somebody who does not hold the mutex has no
-- effect, at most one of the thread and the calls is between its lock and its unlock, and somebody is
-- exactly if the mutex is locked. For every state between two accesses there is a reachable state of
-- the system whose critical sections are single steps, with the same requests under way; and whenever
-- the mutex is free the two have the same building, elevator and allocated blocks.
pub sections_are_atomic :
    {unheld : Option (Bool → Bool)} {b : Building} {f : Machine}
    → IsHarmless unheld
    → Runs unheld b f
    → (s : System) × Reach (signals_of unheld) b s
      × (holders f ≡ (if f.locked then 1 else 0))
      × (s.pending ≡ asks f.calls)
      × ((f.locked ≡ true) ⊎ (f.store ≡ s.store))
sections_are_atomic {f = f} harmless r =
    let (s, m) = Runs-Matched harmless r in
    (
      s,
      m.reach,
      m.exclusion,
      m.pending,
      elim (Bool-cases f.locked) [
        | inl taken ↦ inl taken
        | inr free ↦ inr (same_store m (idle_thread f.place (unlocked_thread f free m.exclusion)))
      ],
    )
