-- ===== src/Elevator/Invariant/Boarding.antt =====
-- movePass on the passenger at the head of a floor's waiting list.
use cop4610_project.Base.{
  ℕ, ◌+◌, ◌≤◌, ◌<◌, ◌≡◌, refl, ap, ap₂, ◌∙◌, subst, true, ◌&&◌, ◌==◌, if◌then◌else◌, ltb, Option,
  some, List, [], ◌∷◌, ◌++◌, arith, add32, sub32, occurs, occurs-cons, occurs_snoc, tally,
  tally-cons, update, update_self, update_twice, update_each, sum_below-update, get_elem?-lt, All,
  All_snoc,
}
use cop4610_project.Elevator.Types.{Passenger, Elevator, Floors, Building, Store}
use cop4610_project.Elevator.Passengers.{get_weight, get_pass, can_fit, p_direction}
use cop4610_project.Elevator.Building.{list_move_tail, move_pass, board, count_out}
use cop4610_project.Elevator.Invariant.{
  IsKnown, WaitsAt, RidesTo, weight, size, is_adult, is_child, is_room, is_bell, FloorsOk,
  ElevatorOk, MotionOk, placed, BlocksOk, StoreOk,
}
use cop4610_project.Elevator.Invariant.Unlink.{WaitsAlone, WaitsAlone-placed, list_del-waiting}
use cop4610_project.Elevator.Invariant.Counters.{
  is_invalid-false, weight_bounds, board-SameCourse, board_counts, count_out-SameQueue,
  count_out_counts, aboard_snoc, counters-le,
}

-- There is room for the passenger, and the elevator goes its way.
abbrev pub Boards : Elevator → Passenger → Type 0
Boards e p =
    (weight p + e.w_units ≤ 30)
    × (size p + e.p_units ≤ 10)
    × (e.direction ≡ (if ltb p.s_floor p.d_floor then 1 else 0))

module _ (e : Elevator) (p : Passenger) (known : IsKnown p.kind) (ok : ElevatorOk e)
    (ls : p.s_floor < 10) (ld : p.d_floor < 10) where
  pub Boards-test : (can_fit p e && (p_direction p == e.direction)) ≡ true → Boards e p
  unfolding can_fit p_direction
  Boards-test h = ground (arith, weight_bounds p.kind known)

  pub test_of_Boards : Boards e p → (can_fit p e && (p_direction p == e.direction)) ≡ true
  unfolding can_fit p_direction
  test_of_Boards h = ground (arith, weight_bounds p.kind known)

-- A floor after the passenger at the head of its list left; `ps` is the rest.
abbrev pub departed : Passenger → List Passenger → Floors → Floors
departed p ps fl =
    let fl1 = count_out p.kind fl in
    record fl1 {
      waiting = ps;
      w_units = sub32 fl1.w_units (get_weight p);
      p_units = sub32 fl1.p_units (get_pass p);
    }

-- The elevator after the passenger came aboard.
abbrev pub joined : Passenger → Elevator → Elevator
joined p e =
    let e1 = board p.kind e in
    record e1 {
      p = update e.p p.d_floor (e.p p.d_floor ++ p ∷ []);
      w_units = add32 e1.w_units (get_weight p);
      p_units = add32 e1.p_units (get_pass p);
    }

abbrev pub boarded : Passenger → List Passenger → Building → Building
boarded p ps b = record {
  f = update b.f p.s_floor (departed p ps (b.f p.s_floor));
  e = joined p b.e;
}

list_move_tail-head :
    {b : Building} {c : ℕ} {p : Passenger} {ps : List Passenger} (d : ℕ)
    → c < 10
    → d < 10
    → WaitsAlone b c p ps
    → list_move_tail p d b
      ≡ some (record {
        f = update b.f c (record (b.f c) { waiting = ps });
        e = record (b.e) { p = update b.e.p d (b.e.p d ++ p ∷ []) };
      })
unfolding list_move_tail
list_move_tail-head {b} d lt ld h = rw (list_del-waiting lt h, get_elem?-lt b.e.p d ld)

module _ {leaked : ℕ → ℕ} {m : Store} (ok : StoreOk leaked m) (p : Passenger) (ps : List Passenger)
    (lt : p.s_floor < 10) (h : (m.b.f p.s_floor).waiting ≡ p ∷ ps) where
  pub waits : WaitsAt p.s_floor p × All (WaitsAt p.s_floor) ps
  waits = subst (All (WaitsAt p.s_floor)) h (ok.floors p.s_floor lt).queue

  once : placed p.node m.b ≤ 1
  once = ground (arith, ok.blocks p.node)

  alone : WaitsAlone m.b p.s_floor p ps
  alone = WaitsAlone-placed m.b p.s_floor p ps lt once h

  -- The building just before list_move_tail.
  abbrev counted : Building
  counted =
      let fl1 = count_out p.kind (m.b.f p.s_floor) in
      let e1 = board p.kind m.b.e in
      record {
        f = update m.b.f p.s_floor (record fl1 {
          w_units = sub32 fl1.w_units (get_weight p);
          p_units = sub32 fl1.p_units (get_pass p);
        });
        e = record e1 {
          w_units = add32 e1.w_units (get_weight p);
          p_units = add32 e1.p_units (get_pass p);
        };
      }

  counted-waiting : (i : ℕ) → (counted.f i).waiting ≡ (m.b.f i).waiting
  counted-waiting i =
      update_each (λ k (fl : Floors). fl.waiting ≡ (m.b.f k).waiting) m.b.f p.s_floor _
        (count_out-SameQueue p.kind (m.b.f p.s_floor)).waiting i (λ ne. refl)

  still_alone : WaitsAlone counted p.s_floor p ps
  still_alone =
      let same = (board-SameCourse p.kind m.b.e).p in
      record {
        head = counted-waiting p.s_floor ∙ h;
        rest = alone.rest;
        waiting = λ i li ne.
            ap (occurs (λ (r : Passenger). r.node) p.node) (counted-waiting i)
            ∙ alone.waiting i li ne;
        riding = λ i li.
            ap (λ (q : ℕ → List Passenger). occurs (λ (r : Passenger). r.node) p.node (q i)) same
            ∙ alone.riding i li;
      }

  departs :
      update counted.f p.s_floor (record (counted.f p.s_floor) { waiting = ps })
      ≡ update m.b.f p.s_floor (departed p ps (m.b.f p.s_floor))
  departs =
      update_twice m.b.f p.s_floor _ _
      ∙ ap (λ (fl : Floors). update m.b.f p.s_floor (record fl { waiting = ps }))
          (update_self m.b.f p.s_floor _)

  pub move_pass-boarded : move_pass m.b p ≡ some (boarded p ps m.b)
  unfolding move_pass
  move_pass-boarded =
      rw (is_invalid-false p waits.0.0, get_elem?-lt m.b.f p.s_floor lt)
        (list_move_tail-head p.d_floor lt waits.0.2 still_alone
          ∙ ap₂ {C = Option Building}
              (λ f q. some (record {
                f = f;
                e = record (counted.e) { p = update q p.d_floor (q p.d_floor ++ p ∷ []) };
              }))
              departs (board-SameCourse p.kind m.b.e).p)

  departed-FloorsOk : FloorsOk p.s_floor (departed p ps (m.b.f p.s_floor))
  unfolding get_weight get_pass
  departed-FloorsOk =
      let fl = m.b.f p.s_floor in
      let old = ok.floors p.s_floor lt in
      let same = count_out-SameQueue p.kind fl in
      let more = λ (g : Passenger → ℕ). ap (tally g) h ∙ tally-cons g p ps in
      let (adults, children, rooms, bells) =
        count_out_counts p.kind fl (tally is_adult ps) (tally is_child ps) (tally is_room ps)
          (tally is_bell ps) (omega (arith, old.adults, more is_adult))
          (omega (arith, old.children, more is_child)) (omega (arith, old.rooms, more is_room))
          (omega (arith, old.bells, more is_bell)) in
      let bounds = weight_bounds p.kind waits.0.0 in
      record {
        queue = waits.1;
        level = same.level ∙ old.level;
        w_units = omega (arith, old.w_units, more weight);
        p_units = omega (arith, old.p_units, more size);
        adults = adults;
        children = children;
        rooms = rooms;
        bells = bells;
        serviced = omega (arith, old.serviced);
      }

  joined-ElevatorOk : Boards m.b.e p → ElevatorOk (joined p m.b.e)
  unfolding get_weight get_pass
  joined-ElevatorOk room =
      let e = m.b.e in
      let old = ok.elevator in
      let small = counters-le old in
      let same = board-SameCourse p.kind e in
      let queue' = e.p p.d_floor ++ p ∷ [] in
      let more = λ (g : Passenger → ℕ). aboard_snoc g e.p p.d_floor p waits.0.2 in
      let (adults, children, rooms, bells) =
        board_counts p.kind e (omega arith) (omega arith) (omega arith) (omega arith) in
      record {
        queues = λ i li.
            update_each (λ k. All (RidesTo k)) e.p p.d_floor queue'
              (All_snoc (RidesTo p.d_floor) (e.p p.d_floor) p (old.queues p.d_floor waits.0.2)
                (waits.0.0, refl, lt))
              i (λ ne. old.queues i li);
        w_units = omega (arith, more weight);
        p_units = omega (arith, more size);
        adults = omega (arith, more is_adult);
        children = omega (arith, more is_child);
        rooms = omega (arith, more is_room);
        bells = omega (arith, more is_bell);
        w_max = omega arith;
        p_max = omega arith;
      }

  joined-MotionOk : MotionOk (joined p m.b.e)
  joined-MotionOk =
      let same = board-SameCourse p.kind m.b.e in
      let old = ok.motion in
      record {
        current = omega arith;
        next = omega arith;
        heading = ground arith;
        shutdown = omega arith;
      }

  boarded-BlocksOk : BlocksOk leaked (record m { b = boarded p ps m.b })
  boarded-BlocksOk a =
      let on = occurs (λ (q : Passenger). q.node) a in
      let d = p.d_floor in
      ground (
        arith,
        ok.blocks a,
        sum_below-update 10 (λ (fl : Floors). on fl.waiting) m.b.f p.s_floor
            (departed p ps (m.b.f p.s_floor)) lt,
        sum_below-update 10 on m.b.e.p d (m.b.e.p d ++ p ∷ []) waits.0.2,
        ap on h,
        occurs-cons (λ (q : Passenger). q.node) a p ps,
        occurs_snoc (λ (q : Passenger). q.node) a (m.b.e.p d) p,
      )

  pub boarded-StoreOk : Boards m.b.e p → StoreOk leaked (record m { b = boarded p ps m.b })
  boarded-StoreOk room = record {
    floors =
        λ i li. update_each FloorsOk m.b.f p.s_floor _ departed-FloorsOk i (λ ne. ok.floors i li);
    elevator = joined-ElevatorOk room;
    motion = joined-MotionOk;
    blocks = boarded-BlocksOk;
  }
