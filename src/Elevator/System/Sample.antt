-- ===== src/Elevator/System/Sample.antt =====
-- A run of the module: a bell hop asks for the fifth floor, and boards on the first.
use cop4610_project.Base.{
  ◌≡◌, refl, true, false, update, without, Option, none, some, [], ◌∷◌, arith,
}
use cop4610_project.Elevator.Types.{State, PType, Passenger, Building, Store}
use cop4610_project.Elevator.Building.{
  list_del, init_building, init_elevator, init_lists, init_floors, add_pass, move_pass, count_in,
}
use cop4610_project.Elevator.Thread.{first_section, service, unload_floor, load_floor}
use cop4610_project.Elevator.Requests.{begin_request, finish_request, start_elevator}
use cop4610_project.Elevator.Checks.{p_type_of}
use cop4610_project.Elevator.System.{Phase, System, Step, Reach, initial}
use cop4610_project.Elevator.Passengers.{is_invalid, can_fit, p_direction}

-- The module's variables before it is loaded.
abbrev pub zeroed : Building
zeroed = record {
  f = λ i. record {
    waiting = [];
    level = 0;
    w_units = 0;
    p_units = 0;
    adults = 0;
    children = 0;
    rooms = 0;
    bells = 0;
    serviced = 0;
  };
  e = record {
    p = λ i. [];
    status = State.idle;
    w_units = 0;
    p_units = 0;
    adults = 0;
    children = 0;
    rooms = 0;
    bells = 0;
    current = 0;
    next = 0;
    shutdown = 0;
    direction = 0;
  };
}

-- A bell hop at address 64 who wants to go from the first floor to the fifth.
abbrev pub bell_hop : Passenger
bell_hop = record { node = 64; kind = PType.bell; s_floor = 0; d_floor = 4 }

-- start_elevator, and then the bell hop's request, which waits for the lock.
abbrev pub requested : System
requested = record (initial zeroed) {
  store = record {
    b = record (init_building zeroed (init_elevator zeroed.e)) {
      e = record (init_elevator zeroed.e) { status = State.idle };
    };
    live = update (λ a. false) 64 true;
  };
  pending = bell_hop ∷ [];
}

pub requested-Reach : Reach false zeroed requested
unfolding start_elevator begin_request init_building init_elevator p_type_of
requested-Reach =
    Reach.next (Reach.next Reach.begin (Step.start true (λ h. refl)))
      (Step.request (some 64) 4 1 5 (omega arith) (λ a e. refl) refl)

-- The store after a section; its line names what a run computes with.
unfoldable pub result : Option Store → Store
unfolding finish_request add_pass is_invalid count_in first_section service unload_floor load_floor
    can_fit p_direction move_pass list_del without init_building init_elevator init_lists
    init_floors
result none = requested.store
result (some m) = m

abbrev pub queued : System
queued = record requested {
  store = result (finish_request true bell_hop requested.store);
  pending = [];
}

pub queued_run : finish_request true bell_hop requested.store ≡ some queued.store
unfolding result
queued_run = refl

pub queued-Reach : Reach false zeroed queued
queued-Reach =
    Reach.next requested-Reach (Step.enqueue true [] [] bell_hop refl (λ h. refl) queued_run)

-- The bell hop is aboard, and the elevator is between its sections.
abbrev pub riding : System
riding = record queued { store = result (first_section true queued.store); phase = Phase.between }

pub riding_run : first_section true queued.store ≡ some riding.store
unfolding result
riding_run = refl

pub riding-Reach : Reach false zeroed riding
riding-Reach = Reach.next queued-Reach (Step.first true refl (λ h. refl) riding_run)

pub riding_bell_hop :
    (riding.store.b.e.p 4 ≡ bell_hop ∷ [])
    × (riding.store.b.e.w_units ≡ 8)
    × (riding.store.b.e.status ≡ State.loading)
unfolding result
riding_bell_hop = (refl, refl, refl)

-- An adult at address 128 who asks to go from the first floor to the first floor.
abbrev pub loiterer : Passenger
loiterer = record { node = 128; kind = PType.adult; s_floor = 0; d_floor = 0 }

-- Both passengers wait for the lock.
abbrev pub both_pending : System
both_pending = record requested {
  store = record (requested.store) { live = update (requested.store.live) 128 true };
  pending = loiterer ∷ bell_hop ∷ [];
}

both_pending-Reach : Reach false zeroed both_pending
unfolding begin_request init_building init_elevator p_type_of
both_pending-Reach =
    Reach.next requested-Reach
      (Step.request (some 128) 1 1 1 (omega arith) (λ a e. ground arith) refl)

-- The adult stands first in the queue of the bottom floor.
abbrev pub loitering : System
loitering = record both_pending {
  store = result (finish_request true loiterer both_pending.store);
  pending = bell_hop ∷ [];
}

loitering_run : finish_request true loiterer both_pending.store ≡ some loitering.store
unfolding result
loitering_run = refl

pub loitering-Reach : Reach false zeroed loitering
loitering-Reach =
    Reach.next both_pending-Reach
      (Step.enqueue true [] (bell_hop ∷ []) loiterer refl (λ h. refl) loitering_run)
