-- ===== src/Elevator/Mutex/Examples.antt =====
-- The bell hop of the sample run, access by access, and a process that reads the proc file.
use mathlib.Core.Option.{some-injective}
use cop4610_project.Base.{
  sym, Option, none, some, Bool, ◌+◌, ◌≡◌, ◌⊎◌, inl, inr, ap, ◌>>=◌, refl, true, false,
  if◌then◌else◌, some, [], ◌∷◌, arith,
}
use cop4610_project.Elevator.Types.{loading, Store}
use cop4610_project.Elevator.Building.{init_building, init_elevator}
use cop4610_project.Elevator.Checks.{p_type_of, check_floor}
use cop4610_project.Elevator.Thread.{set_status}
use cop4610_project.Elevator.Requests.{begin_request, start_elevator}
use cop4610_project.Elevator.Proc.{print_stats}
use cop4610_project.Elevator.System.{System, Reach}
use cop4610_project.Elevator.System.Sample.{zeroed, bell_hop, requested, queued, result, queued_run}
use cop4610_project.Elevator.Mutex.{interrupted}
use cop4610_project.Elevator.Mutex.Overlapping.{interrupted_locks_overlap}
use cop4610_project.Elevator.Mutex.Sections.{IsHarmless}
use cop4610_project.Elevator.Mutex.{
  Rest, access, Place, Call, enters, acts, leaves, Machine, holders, Access, booted, Runs,
}
use cop4610_project.Elevator.Mutex.Atomic.{asks}
use cop4610_project.Elevator.Mutex.Sections.{sections_are_atomic}
use cop4610_project.Elevator.Mutex.Texts.{texts_show_states}
use cop4610_project.Elevator.Mutex.Releasing.{Accesses}
use cop4610_project.Elevator.Mutex.Unlocking.{mutex_is_released}

-- start_elevator returned, and the bell hop's call waits for the mutex.
abbrev asked : Machine
asked = record {
  store = requested.store;
  locked = false;
  place = Place.head;
  calls = Call.asking bell_hop ∷ [];
}

asked-Runs : {unheld : Option (Bool → Bool)} → Runs unheld zeroed asked
unfolding enters acts leaves start_elevator begin_request init_building init_elevator p_type_of
asked-Runs =
    Runs.next
      (Runs.next
        (Runs.next
          (Runs.next (Runs.next Runs.begin (Access.call Call.starting (inl refl)))
            (Access.enter Call.starting Call.starts [] [] refl refl refl))
          (Access.act Call.starts Call.done requested_before_store [] [] refl refl))
        (Access.leave Call.done [] [] [] refl refl))
      (Access.request (some 64) 4 1 5 (omega arith) (λ a e. refl) refl)
  where
    requested_before_store : Store
    requested_before_store = (start_elevator true (booted zeroed).store).0

-- The bell hop waits on the first floor.
abbrev arrived_machine : Machine
arrived_machine = record { store = queued.store; locked = false; place = Place.head; calls = [] }

arrived-Runs : {unheld : Option (Bool → Bool)} → Runs unheld zeroed arrived_machine
unfolding enters acts leaves
arrived-Runs =
    Runs.next
      (Runs.next
        (Runs.next asked-Runs
          (Access.enter (Call.asking bell_hop) (Call.adding bell_hop) [] [] refl refl refl))
        (Access.act (Call.adding bell_hop) Call.done queued.store [] [] refl
          (ap (λ o. o >>= (λ m'. some (m', Call.done))) queued_run)))
      (Access.leave Call.done [] [] [] refl refl)

-- The thread is in its second loop, and has not let the bell hop in.
abbrev letting : Machine
letting = record {
  store = set_status loading queued.store;
  locked = true;
  place = Place.in_first (Rest.letting_in (bell_hop ∷ []));
  calls = [];
}

letting-Runs : {unheld : Option (Bool → Bool)} → Runs unheld zeroed letting
unfolding access check_floor result
letting-Runs =
    Runs.next
      (Runs.next
        (Runs.next (Runs.next arrived-Runs (Access.lock_first refl refl))
          (Access.in_section Rest.entering (Rest.unloading []) _ refl (λ e. cc e) refl))
        (Access.in_section (Rest.unloading []) Rest.boarding _ refl (λ e. cc e) refl))
      (Access.in_section Rest.boarding (Rest.letting_in (bell_hop ∷ [])) _ refl (λ e. cc e) refl)

-- An interrupted call of stop_elevator while the thread lets the bell hop in.
stopped-Runs : Runs (some (λ v. v)) zeroed letting
unfolding interrupted
stopped-Runs =
    Runs.next (Runs.next letting-Runs (Access.call Call.stopping (inr (inl refl))))
      (Access.interrupt (λ v. v) Call.stopping [] [] [] refl refl refl)

no_effect-IsHarmless : IsHarmless (some (λ v. v))
no_effect-IsHarmless unlock given v =
    ap (λ (u : Bool → Bool). u v) (sym (some-injective (λ v. v) unlock given))

none-IsHarmless : IsHarmless none
none-IsHarmless unlock given = cc

sections_are_atomic_example :
    (s : System) × Reach true zeroed s
    × (holders letting ≡ (if letting.locked then 1 else 0))
    × (s.pending ≡ asks letting.calls)
    × ((letting.locked ≡ true) ⊎ (letting.store ≡ s.store))
sections_are_atomic_example = sections_are_atomic no_effect-IsHarmless stopped-Runs

mutex_is_released_example : (g : Machine) × (g.locked ≡ false) × Accesses (some (λ v. v)) g letting
mutex_is_released_example = mutex_is_released no_effect-IsHarmless stopped-Runs refl

interrupted_locks_overlap_example :
    (g : Machine) × Runs (some (λ v. false)) zeroed g
    × (holders g ≡ holders letting + 1)
    × (g.place ≡ letting.place)
    × (g.calls ≡ Call.printing ∷ letting.calls)
    × (g.store ≡ letting.store)
interrupted_locks_overlap_example = interrupted_locks_overlap refl letting-Runs refl

-- A process has read the proc file.
abbrev read : Machine
read = record arrived_machine { calls = Call.shown (print_stats queued.store.b) ∷ [] }

read-Runs : {unheld : Option (Bool → Bool)} → Runs unheld zeroed read
unfolding enters acts leaves
read-Runs =
    Runs.next
      (Runs.next
        (Runs.next (Runs.next arrived-Runs (Access.call Call.opening (inr (inr refl))))
          (Access.enter Call.opening Call.printing [] [] refl refl refl))
        (Access.act Call.printing (Call.printed (print_stats queued.store.b)) queued.store [] []
          refl refl))
      (Access.leave (Call.printed (print_stats queued.store.b))
        (Call.shown (print_stats queued.store.b) ∷ []) [] [] refl refl)

texts_show_states_example :
    (s : System) × Reach false zeroed s × (print_stats queued.store.b ≡ print_stats s.store.b)
texts_show_states_example =
    texts_show_states (print_stats queued.store.b) [] [] none-IsHarmless read-Runs refl
