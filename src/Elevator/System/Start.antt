-- ===== src/Elevator/System/Start.antt =====
-- The state after initElevator and initBuilding.
use cop4610_project.Base.{
  ℕ, zero, suc, ◌<◌, ◌≡◌, refl, sym, List, [], arith, tally, occurs, update_each, sum_below,
  sum_below-congr, false,
}
use cop4610_project.Elevator.Types.{Passenger, Floors, Building}
use cop4610_project.Elevator.Building.{init_lists, init_elevator, init_floors, init_building}
use cop4610_project.Elevator.Invariant.{
  aboard, weight, size, is_adult, is_child, is_room, is_bell, FloorsOk, StoreOk,
}

pub init_lists-empty : (n : ℕ) (p : ℕ → List Passenger) (i : ℕ) → i < n → init_lists n p i ≡ []
unfolding init_lists
init_lists-empty zero p i h = absurd (omega arith)
init_lists-empty (suc n) p i h =
    update_each (λ k (l : List Passenger). (k < suc n) → l ≡ []) (init_lists n p) n [] (λ lt. refl)
      i (λ ne lt. init_lists-empty n p i (omega arith)) h

-- A floor just after initBuilding.
pub record Fresh (i : ℕ) (fl : Floors) : Type 0 where
  pub waiting : fl.waiting ≡ []
  level : fl.level ≡ i
  w_units : fl.w_units ≡ 0
  p_units : fl.p_units ≡ 0
  adults : fl.adults ≡ 0
  children : fl.children ≡ 0
  rooms : fl.rooms ≡ 0
  bells : fl.bells ≡ 0
  pub serviced : fl.serviced ≡ 0

pub init_floors-Fresh : (n : ℕ) (f : ℕ → Floors) (i : ℕ) → i < n → Fresh i (init_floors n f i)
unfolding init_floors
init_floors-Fresh zero f i h = absurd (omega arith)
init_floors-Fresh (suc n) f i h =
    update_each (λ k fl. (k < suc n) → Fresh k fl) (init_floors n f) n _ (λ lt. ground arith) i
      (λ ne lt. init_floors-Fresh n f i (omega arith)) h

pub tally-nil : (g : Passenger → ℕ) {l : List Passenger} → l ≡ [] → tally g l ≡ 0
unfolding tally
tally-nil g e = rw e

occurs-nil : (a : ℕ) {l : List Passenger} → l ≡ [] → occurs (λ q. q.node) a l ≡ 0
unfolding occurs
occurs-nil a e = rw e

pub sum_below_zero : (g : ℕ → ℕ) → ((i : ℕ) → i < 10 → g i ≡ 0) → sum_below 10 g ≡ 0
unfolding sum_below
sum_below_zero g h = sum_below-congr 10 g (λ i. 0) h

Fresh-FloorsOk : (i : ℕ) {fl : Floors} → Fresh i fl → FloorsOk i fl
Fresh-FloorsOk i {fl} new =
    let none = λ (g : Passenger → ℕ). tally-nil g new.waiting in
    record {
      queue = rw new.waiting tt;
      level = new.level;
      w_units = omega (arith, new.w_units, none weight);
      p_units = omega (arith, new.p_units, none size);
      adults = omega (arith, new.adults, none is_adult);
      children = omega (arith, new.children, none is_child);
      rooms = omega (arith, new.rooms, none is_room);
      bells = omega (arith, new.bells, none is_bell);
      serviced = omega (arith, new.serviced);
    }

pub initial-StoreOk :
    (b : Building)
    → StoreOk (λ a. 0) (record { b = init_building b (init_elevator b.e); live = λ a. false })
unfolding init_building init_elevator
initial-StoreOk b = record {
  floors = λ i li. Fresh-FloorsOk i (new i li);
  elevator = record {
    queues = λ i li. rw (empty i li) tt;
    w_units = sym (nobody weight);
    p_units = sym (nobody size);
    adults = sym (nobody is_adult);
    children = sym (nobody is_child);
    rooms = sym (nobody is_room);
    bells = sym (nobody is_bell);
    w_max = omega arith;
    p_max = omega arith;
  };
  motion = omega arith;
  blocks = λ a. omega (
    arith,
    sum_below_zero (λ i. occurs (λ (q : Passenger). q.node) a (init_floors 10 b.f i).waiting)
        (λ i li. occurs-nil a (new i li).waiting),
    sum_below_zero (λ i. occurs (λ (q : Passenger). q.node) a (init_lists 10 b.e.p i))
        (λ i li. occurs-nil a (empty i li)),
  );
}
  where
    new : (i : ℕ) → i < 10 → Fresh i (init_floors 10 b.f i)
    new i li = init_floors-Fresh 10 b.f i li

    empty : (i : ℕ) → i < 10 → init_lists 10 b.e.p i ≡ []
    empty i li = init_lists-empty 10 b.e.p i li

    nobody : (g : Passenger → ℕ) → aboard g (init_lists 10 b.e.p) ≡ 0
    nobody g = sum_below_zero _ (λ i li. tally-nil g (empty i li))
