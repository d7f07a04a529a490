-- ===== src/Elevator/Building.antt =====
-- part3/elevator/elevator.h: the elevator and the building at the start, and the three functions
-- that put a passenger on a floor, take it aboard and let it off. A result `none` is a fault.
use cop4610_project.Base.{
  ℕ, zero, suc, false, if◌then◌else◌, Option, none, some, List, [], ◌∷◌, ◌++◌, add32, sub32,
  max_floor, get_elem?, update, ltb, ◌>>=◌, without,
}
use cop4610_project.Elevator.Types.{
  State, PType, adult, child, room, bell, unknown, Passenger, Elevator, Floors, Building, Store,
}
use cop4610_project.Elevator.Passengers.{get_pass, get_weight, is_invalid}

-- INIT_LIST_HEAD on the first `n` lists
unfoldable pub init_lists : ℕ → (ℕ → List Passenger) → ℕ → List Passenger
init_lists zero p = p
init_lists (suc n) p = update (init_lists n p) n []

unfoldable pub init_elevator : Elevator → Elevator
init_elevator e = record {
  p = init_lists max_floor e.p;
  status = State.offline;
  current = 0;
  next = 1;
  w_units = 0;
  p_units = 0;
  adults = 0;
  children = 0;
  rooms = 0;
  bells = 0;
  shutdown = 0;
  direction = 1;
}

unfoldable pub init_floors : ℕ → (ℕ → Floors) → ℕ → Floors
init_floors zero f = f
init_floors (suc n) f = update (init_floors n f) n (record {
  waiting = [];
  level = n;
  w_units = 0;
  p_units = 0;
  adults = 0;
  children = 0;
  rooms = 0;
  bells = 0;
  serviced = 0;
})

unfoldable pub init_building : Building → Elevator → Building
init_building b e = record { f = init_floors max_floor b.f; e = e }

-- The `switch` of addPass and those of movePass and delPass, by the counter that they change.
unfoldable pub count_in : PType → Floors → Floors
count_in adult fl = record fl { adults = add32 fl.adults 1 }
count_in child fl = record fl { children = add32 fl.children 1 }
count_in room fl = record fl { rooms = add32 fl.rooms 1 }
count_in bell fl = record fl { bells = add32 fl.bells 1 }
count_in (unknown n) fl = fl

unfoldable pub count_out : PType → Floors → Floors
count_out adult fl = record fl { adults = sub32 fl.adults 1 }
count_out child fl = record fl { children = sub32 fl.children 1 }
count_out room fl = record fl { rooms = sub32 fl.rooms 1 }
count_out bell fl = record fl { bells = sub32 fl.bells 1 }
count_out (unknown n) fl = fl

unfoldable pub board : PType → Elevator → Elevator
board adult e = record e { adults = add32 e.adults 1 }
board child e = record e { children = add32 e.children 1 }
board room e = record e { rooms = add32 e.rooms 1 }
board bell e = record e { bells = add32 e.bells 1 }
board (unknown n) e = e

unfoldable pub alight : PType → Elevator → Elevator
alight adult e = record e { adults = sub32 e.adults 1 }
alight child e = record e { children = sub32 e.children 1 }
alight room e = record e { rooms = sub32 e.rooms 1 }
alight bell e = record e { bells = sub32 e.bells 1 }
alight (unknown n) e = e

-- list_del: the node leaves whichever of the building's lists it is on.
unfoldable pub list_del : ℕ → Building → Building
list_del a b = record b {
  f = λ i.
      if ltb i max_floor
      then record (b.f i) { waiting = without (λ q. q.node) a (b.f i).waiting }
      else b.f i;
  e = record (b.e) {
    p = λ i. if ltb i max_floor then without (λ q. q.node) a (b.e.p i) else b.e.p i;
  };
}

-- list_move_tail to the elevator's list for floor `d`: an index outside the array is a fault.
unfoldable pub list_move_tail : Passenger → ℕ → Building → Option Building
list_move_tail p d b = do
  let b' = list_del p.node b
  q ← get_elem? b'.e.p d
  some (record b' { e = record (b'.e) { p = update b'.e.p d (q ++ p ∷ []) } })

-- kfree: a block that is not allocated is a fault.
unfoldable pub kfree : ℕ → Store → Option Store
kfree a m = if m.live a then some (record m { live = update m.live a false }) else none

unfoldable pub add_pass : Building → Passenger → Option Building
unfolding count_in
add_pass b p = if is_invalid p then some b else do
  fl ← get_elem? b.f p.s_floor
  let fl1 = record fl { waiting = fl.waiting ++ p ∷ [] }
  let fl2 = record fl1 {
    w_units = add32 fl1.w_units (get_weight p);
    p_units = add32 fl1.p_units (get_pass p);
  }
  some (record b { f = update b.f p.s_floor (count_in p.kind fl2) })

unfoldable pub del_pass : Store → Passenger → Option Store
unfolding alight list_del kfree
del_pass m p = if is_invalid p then some m else do
  let e1 = alight p.kind m.b.e
  let e2 = record e1 {
    w_units = sub32 e1.w_units (get_weight p);
    p_units = sub32 e1.p_units (get_pass p);
  }
  fl ← get_elem? m.b.f p.s_floor
  let f' = update m.b.f p.s_floor (record fl { serviced = add32 fl.serviced 1 })
  kfree p.node (record m { b = list_del p.node (record { f = f'; e = e2 }) })

unfoldable pub move_pass : Building → Passenger → Option Building
unfolding count_out board list_move_tail
move_pass b p = if is_invalid p then some b else do
  fl ← get_elem? b.f p.s_floor
  let fl1 = count_out p.kind fl
  let e1 = board p.kind b.e
  let fl2 = record fl1 {
    w_units = sub32 fl1.w_units (get_weight p);
    p_units = sub32 fl1.p_units (get_pass p);
  }
  let e2 = record e1 {
    w_units = add32 e1.w_units (get_weight p);
    p_units = add32 e1.p_units (get_pass p);
  }
  list_move_tail p p.d_floor (record { f = update b.f p.s_floor fl2; e = e2 })
