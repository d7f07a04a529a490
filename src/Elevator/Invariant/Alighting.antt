-- ===== src/Elevator/Invariant/Alighting.antt =====
-- delPass on the passenger at the head of the list for a floor.
use cop4610_project.Base.{
  ℕ, ◌+◌, ◌≤◌, ◌<◌, ◌≡◌, refl, ap, ◌∙◌, subst, true, false, some, List, ◌∷◌, arith, add32, sub32,
  occurs, occurs-cons, update, update_each, sum_below-update, sum_below-congr, elem-le-sum_below,
  get_elem?-lt, All,
}
use cop4610_project.Elevator.Types.{Passenger, Elevator, Floors, Building, Store}
use cop4610_project.Elevator.Passengers.{get_weight, get_pass}
use cop4610_project.Elevator.Building.{del_pass, alight}
use cop4610_project.Elevator.Invariant.{
  RidesTo, weight, size, is_adult, is_child, is_room, is_bell, aboard, FloorsOk, ElevatorOk,
  MotionOk, placed, BlocksOk, StoreOk,
}
use cop4610_project.Elevator.Invariant.Unlink.{RidesAlone, RidesAlone-placed, list_del-aboard}
use cop4610_project.Elevator.Invariant.Counters.{
  is_invalid-false, alight-SameCourse, alight_counts, aboard-cons, counters-le,
}

-- The elevator's counters after the passenger got off.
abbrev pub lightened : Passenger → Elevator → Elevator
lightened p e =
    let e1 = alight p.kind e in
    record e1 { w_units = sub32 e1.w_units (get_weight p); p_units = sub32 e1.p_units (get_pass p) }

abbrev pub served : ℕ → (ℕ → Floors) → ℕ → Floors
served i f = update f i (record (f i) { serviced = add32 (f i).serviced 1 })

-- The store after the passenger at the head of list `c` got off; `ps` is the rest of the list.
abbrev pub alighted : ℕ → Passenger → List Passenger → Store → Store
alighted c p ps m = record {
  b = record {
    f = served p.s_floor m.b.f;
    e = record (lightened p m.b.e) { p = update m.b.e.p c ps };
  };
  live = update m.live p.node false;
}

pub served-waiting : (i : ℕ) (f : ℕ → Floors) (j : ℕ) → (served i f j).waiting ≡ (f j).waiting
served-waiting i f j =
    update_each (λ k (fl : Floors). fl.waiting ≡ (f k).waiting) f i _ refl j (λ ne. refl)

served-FloorsOk :
    (i : ℕ) (f : ℕ → Floors)
    → ((j : ℕ) → j < 10 → FloorsOk j (f j))
    → i < 10
    → (j : ℕ) → j < 10
    → FloorsOk j (served i f j)
served-FloorsOk i f ok li j lj =
    let old = ok i li in
    update_each FloorsOk f i (record (f i) { serviced = add32 (f i).serviced 1 })
      (record {
        queue = old.queue;
        level = old.level;
        w_units = old.w_units;
        p_units = old.p_units;
        adults = old.adults;
        children = old.children;
        rooms = old.rooms;
        bells = old.bells;
        serviced = omega arith;
      })
      j (λ ne. ok j lj)

module _ {leaked : ℕ → ℕ} {m : Store} (ok : StoreOk leaked m) (c : ℕ) (p : Passenger)
    (ps : List Passenger) (lt : c < 10) (h : m.b.e.p c ≡ p ∷ ps) where
  pub rides : RidesTo c p × All (RidesTo c) ps
  rides = subst (All (RidesTo c)) h (ok.elevator.queues c lt)

  once : placed p.node m.b ≤ 1
  once = ground (arith, ok.blocks p.node)

  alone : RidesAlone m.b c p ps
  alone = RidesAlone-placed m.b c p ps lt once h

  here : occurs (λ q. q.node) p.node (m.b.e.p c) ≡ 1 + occurs (λ q. q.node) p.node ps
  here = rw h (ground (arith, occurs-cons (λ (q : Passenger). q.node) p.node p ps))

  is_live : m.live p.node ≡ true
  is_live = ground (
    arith,
    here,
    ok.blocks p.node,
    elem-le-sum_below 10 (λ i. occurs (λ (q : Passenger). q.node) p.node (m.b.e.p i)) c lt,
  )

  abbrev unlinked : Building
  unlinked = record { f = served p.s_floor m.b.f; e = lightened p m.b.e }

  still_alone : RidesAlone unlinked c p ps
  still_alone =
      let same = (alight-SameCourse p.kind m.b.e).p in
      record {
        head = ap (λ (q : ℕ → List Passenger). q c) same ∙ h;
        rest = alone.rest;
        riding = λ i li ne.
            ap (λ (q : ℕ → List Passenger). occurs (λ (r : Passenger). r.node) p.node (q i)) same
            ∙ alone.riding i li ne;
        waiting = λ i li.
            ap (occurs (λ (r : Passenger). r.node) p.node) (served-waiting p.s_floor m.b.f i)
            ∙ alone.waiting i li;
      }

  pub del_pass-alighted : del_pass m p ≡ some (alighted c p ps m)
  unfolding del_pass
  del_pass-alighted = rw (
    is_invalid-false p rides.0.0,
    get_elem?-lt m.b.f p.s_floor rides.0.2,
    list_del-aboard lt still_alone,
    is_live,
    (alight-SameCourse p.kind m.b.e).p,
  )

  pub alighted-ElevatorOk : ElevatorOk (alighted c p ps m).b.e
  unfolding get_weight get_pass
  alighted-ElevatorOk =
      let e = m.b.e in
      let old = ok.elevator in
      let small = counters-le old in
      let q' = update e.p c ps in
      let less = λ (g : Passenger → ℕ). aboard-cons g e.p c p ps lt h in
      let (adults, children, rooms, bells) =
        alight_counts p.kind e (aboard is_adult q') (aboard is_child q') (aboard is_room q')
          (aboard is_bell q') (old.adults ∙ less is_adult) (old.children ∙ less is_child)
          (old.rooms ∙ less is_room) (old.bells ∙ less is_bell) (omega (arith, less is_adult))
          (omega (arith, less is_child)) (omega (arith, less is_room))
          (omega (arith, less is_bell)) in
      let same = alight-SameCourse p.kind e in
      record {
        queues =
            λ i li. update_each (λ k. All (RidesTo k)) e.p c ps rides.1 i (λ ne. old.queues i li);
        w_units = omega (arith, less weight);
        p_units = omega (arith, less size);
        adults = adults;
        children = children;
        rooms = rooms;
        bells = bells;
        w_max = omega (arith, less weight);
        p_max = omega (arith, less size);
      }

  pub alighted-MotionOk : MotionOk (alighted c p ps m).b.e
  alighted-MotionOk =
      let same = alight-SameCourse p.kind m.b.e in
      let old = ok.motion in
      record {
        current = omega arith;
        next = omega arith;
        heading = ground arith;
        shutdown = omega arith;
      }

  pub alighted-BlocksOk : BlocksOk leaked (alighted c p ps m)
  alighted-BlocksOk a =
      let on = occurs (λ (q : Passenger). q.node) a in
      ground (
        arith,
        is_live,
        ok.blocks a,
        sum_below-congr 10 (λ i. on (served p.s_floor m.b.f i).waiting) (λ i. on (m.b.f i).waiting)
            (λ i li. ap on (served-waiting p.s_floor m.b.f i)),
        sum_below-update 10 on m.b.e.p c ps lt,
        ap on h,
        occurs-cons (λ (q : Passenger). q.node) a p ps,
      )

  pub alighted-StoreOk : StoreOk leaked (alighted c p ps m)
  alighted-StoreOk = record {
    floors = served-FloorsOk p.s_floor m.b.f ok.floors rides.0.2;
    elevator = alighted-ElevatorOk;
    motion = alighted-MotionOk;
    blocks = alighted-BlocksOk;
  }
