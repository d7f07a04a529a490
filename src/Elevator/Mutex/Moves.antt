-- ===== src/Elevator/Mutex/Moves.antt =====
-- The accesses of the thread as whole sections.
use cop4610_project.Base.{Bool, ◌+◌, ◌≡◌, refl, ap, sym, ◌∙◌, Bool, true, false, some, arith, tally}
use cop4610_project.Elevator.Types.{Building, Store}
use cop4610_project.Elevator.Thread.{first_section, second_section, service}
use cop4610_project.Elevator.Invariant.Servicing.{service-Serviced}
use cop4610_project.Elevator.System.{Phase, System, Step, Reach}
use cop4610_project.Elevator.System.Safety.{Reach-SystemOk}
use cop4610_project.Elevator.Mutex.{Rest, access, Place, thread_holds, holds, Machine}
use cop4610_project.Elevator.Mutex.Accesses.{run_rest, access-run_rest}
use cop4610_project.Elevator.Mutex.Atomic.{
  rest_of, phase_of, flag, flag-le, Matches, Matched, same_store,
}

module _ {signals : Bool} {b : Building} {f : Machine} {s : System}
    (m : Matches signals b f s) where
  released : thread_holds f.place ≡ 1 → tally holds f.calls ≡ 0
  released one = omega (arith, one, m.exclusion, flag-le f.locked)

  pub lock_first-Matched :
      f.place ≡ Place.head
      → f.locked ≡ false
      → Matched signals b (record f { locked = true; place = Place.in_first Rest.entering })
  unfolding first_section run_rest thread_holds
  lock_first-Matched at free =
      let (lost, none_lost, ok) = Reach-SystemOk m.reach in
      let (m', run, ok', how) = service-Serviced s.store ok.store in
      let same = same_store m (ap rest_of at) in
      (
        record s { store = m'; phase = Phase.between },
        record {
          reach = Reach.next m.reach (Step.first true (m.phase ∙ ap phase_of at) (λ h. refl) run);
          exclusion = omega (arith, m.exclusion, ap thread_holds at, ap flag free);
          pending = m.pending;
          phase = refl;
          store = ap service same ∙ run;
        },
      )

  pub in_section-Matched :
      (r r' : Rest) (m' : Store)
      → f.place ≡ Place.in_first r
      → access r f.store ≡ some (r', m')
      → Matched signals b (record f { store = m'; place = Place.in_first r' })
  unfolding thread_holds
  in_section-Matched r r' m' at run = (
    s,
    record {
      reach = m.reach;
      exclusion = sym (ap (λ p. thread_holds p + tally holds f.calls) at) ∙ m.exclusion;
      pending = m.pending;
      phase = m.phase ∙ ap phase_of at;
      store =
          sym (access-run_rest r r' f.store m' run)
          ∙ ap (λ p. run_rest (rest_of p) f.store) (sym at)
          ∙ m.store;
    },
  )

  pub unlock_first-Matched :
      f.place ≡ Place.in_first Rest.finished
      → Matched signals b (record f { locked = false; place = Place.between })
  unfolding thread_holds run_rest
  unlock_first-Matched at = (
    s,
    record {
      reach = m.reach;
      exclusion = omega (arith, released (ap thread_holds at));
      pending = m.pending;
      phase = m.phase ∙ ap phase_of at;
      store = ap some (same_store m (ap rest_of at));
    },
  )

  pub lock_second-Matched :
      f.place ≡ Place.between
      → f.locked ≡ false
      → Matched signals b (record f { locked = true; place = Place.in_second })
  unfolding thread_holds run_rest
  lock_second-Matched at free = (
    s,
    record {
      reach = m.reach;
      exclusion = omega (arith, m.exclusion, ap thread_holds at, ap flag free);
      pending = m.pending;
      phase = m.phase ∙ ap phase_of at;
      store = ap some (same_store m (ap rest_of at));
    },
  )

  pub move-Matched :
      f.place ≡ Place.in_second
      → Matched signals b (record f { store = second_section true f.store; place = Place.moved })
  unfolding thread_holds run_rest
  move-Matched at = (
    record s { store = second_section true s.store; phase = Phase.head },
    record {
      reach = Reach.next m.reach (Step.second true (m.phase ∙ ap phase_of at) (λ h. refl));
      exclusion = sym (ap (λ p. thread_holds p + tally holds f.calls) at) ∙ m.exclusion;
      pending = m.pending;
      phase = refl;
      store = ap (λ n. some (second_section true n)) (same_store m (ap rest_of at));
    },
  )

  pub unlock_second-Matched :
      f.place ≡ Place.moved → Matched signals b (record f { locked = false; place = Place.head })
  unfolding thread_holds run_rest
  unlock_second-Matched at = (
    s,
    record {
      reach = m.reach;
      exclusion = omega (arith, released (ap thread_holds at));
      pending = m.pending;
      phase = m.phase ∙ ap phase_of at;
      store = ap some (same_store m (ap rest_of at));
    },
  )

  pub should_stop-Matched :
      f.place ≡ Place.head → Matched signals b (record f { place = Place.returned })
  unfolding thread_holds run_rest
  should_stop-Matched at = (
    record s { phase = Phase.returned },
    record {
      reach = Reach.next m.reach (Step.should_stop (m.phase ∙ ap phase_of at));
      exclusion = sym (ap (λ p. thread_holds p + tally holds f.calls) at) ∙ m.exclusion;
      pending = m.pending;
      phase = refl;
      store = ap some (same_store m (ap rest_of at));
    },
  )

  pub interrupt_first-Matched :
      (unlock : Bool → Bool)
      → unlock f.locked ≡ f.locked
      → signals ≡ true
      → f.place ≡ Place.head
      → Matched signals b (record f { locked = unlock f.locked; place = Place.between })
  unfolding thread_holds run_rest first_section
  interrupt_first-Matched unlock as_before on at = (
    record s { phase = Phase.between },
    record {
      reach =
          Reach.next m.reach (Step.first false (m.phase ∙ ap phase_of at) (λ h. cc (h, on)) refl);
      exclusion =
          sym (ap (λ p. thread_holds p + tally holds f.calls) at)
          ∙ m.exclusion
          ∙ ap flag (sym as_before);
      pending = m.pending;
      phase = refl;
      store = ap some (same_store m (ap rest_of at));
    },
  )

  pub interrupt_second-Matched :
      (unlock : Bool → Bool)
      → unlock f.locked ≡ f.locked
      → signals ≡ true
      → f.place ≡ Place.between
      → Matched signals b (record f { locked = unlock f.locked; place = Place.head })
  unfolding thread_holds run_rest second_section
  interrupt_second-Matched unlock as_before on at = (
    record s { phase = Phase.head },
    record {
      reach = Reach.next m.reach (Step.second false (m.phase ∙ ap phase_of at) (λ h. cc (h, on)));
      exclusion =
          sym (ap (λ p. thread_holds p + tally holds f.calls) at)
          ∙ m.exclusion
          ∙ ap flag (sym as_before);
      pending = m.pending;
      phase = refl;
      store = ap some (same_store m (ap rest_of at));
    },
  )
