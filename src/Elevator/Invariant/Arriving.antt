-- ===== src/Elevator/Invariant/Arriving.antt =====
-- addPass, and issue_request around it.
use cop4610_project.Base.{
  ℕ, ◌+◌, ◌<◌, ◌≡◌, refl, ap, sym, ◌∙◌, subst, true, false, ◌==◌, if◌then◌else◌, some, [], ◌∷◌,
  ◌++◌, arith, add32, occurs, occurs_snoc, tally, tally_snoc, update, update_each, sum_below-update,
  get_elem?-lt, All, All_snoc,
}
use cop4610_project.Elevator.Types.{Passenger, Floors, Building, Store}
use cop4610_project.Elevator.Passengers.{get_weight, get_pass}
use cop4610_project.Elevator.Building.{add_pass, count_in}
use cop4610_project.Elevator.Invariant.{
  IsKnown, WaitsAt, weight, size, is_adult, is_child, is_room, is_bell, FloorsOk, BlocksOk, StoreOk,
}
use cop4610_project.Elevator.Invariant.Counters.{
  is_invalid-false, count_in-SameQueue, count_in_counts,
}

-- The floor with one more passenger at the end of its queue.
abbrev pub longer : Passenger → Floors → Floors
longer p fl = count_in p.kind (record fl {
  waiting = fl.waiting ++ p ∷ [];
  w_units = add32 fl.w_units (get_weight p);
  p_units = add32 fl.p_units (get_pass p);
})

abbrev pub arrived : Passenger → Building → Building
arrived p b = record b { f = update b.f p.s_floor (longer p (b.f p.s_floor)) }

module _ (p : Passenger) (b : Building) (known : IsKnown p.kind) (lt : p.s_floor < 10) where
  pub add_pass-arrived : add_pass b p ≡ some (arrived p b)
  unfolding add_pass
  add_pass-arrived = rw (is_invalid-false p known, get_elem?-lt b.f p.s_floor lt)

  longer-FloorsOk :
      p.d_floor < 10
      → FloorsOk p.s_floor (b.f p.s_floor)
      → FloorsOk p.s_floor (longer p (b.f p.s_floor))
  unfolding get_weight get_pass
  longer-FloorsOk ld old =
      let fl = b.f p.s_floor in
      let queue' = fl.waiting ++ p ∷ [] in
      let fl2 : Floors = record fl {
        waiting = queue';
        w_units = add32 fl.w_units (get_weight p);
        p_units = add32 fl.p_units (get_pass p);
      } in
      let same = count_in-SameQueue p.kind fl2 in
      let more = λ (g : Passenger → ℕ). ap (tally g) same.waiting ∙ tally_snoc g fl.waiting p in
      let (adults, children, rooms, bells) =
        count_in_counts p.kind fl2 (tally is_adult fl.waiting) (tally is_child fl.waiting)
          (tally is_room fl.waiting) (tally is_bell fl.waiting) old.adults old.children old.rooms
          old.bells in
      record {
        queue =
            subst (All (WaitsAt p.s_floor)) (sym same.waiting)
              (All_snoc (WaitsAt p.s_floor) fl.waiting p old.queue (known, refl, ld));
        level = same.level ∙ old.level;
        w_units = omega (arith, same.w_units, old.w_units, more weight);
        p_units = omega (arith, same.p_units, old.p_units, more size);
        adults = omega (arith, adults, more is_adult);
        children = omega (arith, children, more is_child);
        rooms = omega (arith, rooms, more is_room);
        bells = omega (arith, bells, more is_bell);
        serviced = omega (arith, same.serviced, old.serviced);
      }

-- One more block at the address that no list of the building holds.
abbrev pub held : ℕ → (ℕ → ℕ) → ℕ → ℕ
held a leaked x = (if a == x then 1 else 0) + leaked x

abbrev pub allocated : ℕ → Store → Store
allocated a m = record m { live = update m.live a true }

pub allocated-StoreOk :
    {leaked : ℕ → ℕ} (m : Store) (a : ℕ)
    → StoreOk leaked m
    → m.live a ≡ false
    → StoreOk (held a leaked) (allocated a m)
allocated-StoreOk m a ok fresh = record {
  floors = ok.floors;
  elevator = ok.elevator;
  motion = ok.motion;
  blocks = λ x. ground (arith, ok.blocks x, ok.blocks a);
}

-- A passenger of a known type, between floors that exist.
pub record IsValid (p : Passenger) : Type 0 where
  pub known : IsKnown p.kind
  pub start : p.s_floor < 10
  pub end : p.d_floor < 10

module _ (leaked : ℕ → ℕ) (m : Store) (p : Passenger) (ok : StoreOk (held p.node leaked) m)
    (valid : IsValid p) where
  arrived-BlocksOk : BlocksOk leaked (record m { b = arrived p m.b })
  arrived-BlocksOk a =
      let on = occurs (λ (q : Passenger). q.node) a in
      let waiting' : (longer p (m.b.f p.s_floor)).waiting ≡ (m.b.f p.s_floor).waiting ++ p ∷ [] =
        (count_in-SameQueue p.kind _).waiting in
      ground (
        arith,
        ok.blocks a,
        sum_below-update 10 (λ (fl : Floors). on fl.waiting) m.b.f p.s_floor
            (longer p (m.b.f p.s_floor)) valid.start,
        ap on waiting',
        occurs_snoc (λ (q : Passenger). q.node) a (m.b.f p.s_floor).waiting p,
      )

  pub arrived-StoreOk : StoreOk leaked (record m { b = arrived p m.b })
  arrived-StoreOk = record {
    floors = λ i li.
        update_each FloorsOk m.b.f p.s_floor _
          (longer-FloorsOk p m.b valid.known valid.start valid.end
            (ok.floors p.s_floor valid.start))
          i (λ ne. ok.floors i li);
    elevator = ok.elevator;
    motion = ok.motion;
    blocks = arrived-BlocksOk;
  }
