-- ===== src/Elevator/Invariant/Counters.antt =====
-- The switches of addPass, delPass and movePass against the measures that the counters add up.
use cop4610_project.Base.{
  ℕ, ◌+◌, ◌%◌, ◌^◌, ◌≤◌, ◌<◌, ◌≡◌, refl, false, List, ◌∷◌, arith, ap, tally, tally-cons, tally_mono,
  tally_snoc, [], ◌++◌, update, sum_below-update, sum_below_mono,
}
use cop4610_project.Elevator.Types.{
  PType, adult, child, room, bell, unknown, Passenger, Elevator, Floors,
}
use cop4610_project.Elevator.Passengers.{weight_of, pass_of, is_invalid}
use cop4610_project.Elevator.Building.{count_in, count_out, board, alight}
use cop4610_project.Elevator.Invariant.{
  IsKnown, size, adult_of, child_of, room_of, bell_of, is_adult, is_child, is_room, is_bell, aboard,
  ElevatorOk,
}

pub is_invalid-false : (p : Passenger) → IsKnown p.kind → is_invalid p ≡ false
unfolding is_invalid
is_invalid-false p = go p.kind
  where
    go : (k : PType) → IsKnown k → is_invalid (record p { kind = k }) ≡ false
    go adult h = refl
    go child h = refl
    go room h = refl
    go bell h = refl
    go (unknown n) h = absurd h

-- What a passenger of each type weighs and takes up, as numbers.
pub weight_bounds :
    (k : PType)
    → IsKnown k
    → (1 ≤ weight_of k) × (weight_of k ≤ 8) × (1 ≤ pass_of k) × (pass_of k ≤ 2)
unfolding weight_of pass_of
weight_bounds adult h = omega arith
weight_bounds (unknown n) h = absurd h
weight_bounds _ h = omega arith

-- Exactly one of the four counts a passenger of a known type.
pub one_counter : (k : PType) → IsKnown k → adult_of k + child_of k + room_of k + bell_of k ≡ 1
unfolding adult_of child_of room_of bell_of
one_counter adult h = refl
one_counter (unknown n) h = absurd h
one_counter _ h = refl

pub counters_small :
    (k : PType)
    → (adult_of k ≤ pass_of k)
      × (child_of k ≤ pass_of k)
      × (room_of k ≤ pass_of k)
      × (bell_of k ≤ pass_of k)
unfolding adult_of child_of room_of bell_of pass_of
counters_small adult = omega arith
counters_small _ = omega arith

-- What `alight` and `board` leave alone.
pub record SameCourse (e e' : Elevator) : Type 0 where
  pub p : e'.p ≡ e.p
  pub status : e'.status ≡ e.status
  pub w_units : e'.w_units ≡ e.w_units
  pub p_units : e'.p_units ≡ e.p_units
  pub current : e'.current ≡ e.current
  pub next : e'.next ≡ e.next
  pub shutdown : e'.shutdown ≡ e.shutdown
  pub direction : e'.direction ≡ e.direction

-- What the two loops leave alone of the elevator.
pub record SameControl (e e' : Elevator) : Type 0 where
  pub status : e'.status ≡ e.status
  pub current : e'.current ≡ e.current
  pub next : e'.next ≡ e.next
  pub shutdown : e'.shutdown ≡ e.shutdown
  pub direction : e'.direction ≡ e.direction

pub alight-SameCourse : (k : PType) (e : Elevator) → SameCourse e (alight k e)
unfolding alight
alight-SameCourse adult e = ground arith
alight-SameCourse _ e = ground arith

pub board-SameCourse : (k : PType) (e : Elevator) → SameCourse e (board k e)
unfolding board
board-SameCourse adult e = ground arith
board-SameCourse _ e = ground arith

pub alight_counts :
    (k : PType) (e : Elevator) (a c r b : ℕ)
    → e.adults ≡ a + adult_of k
    → e.children ≡ c + child_of k
    → e.rooms ≡ r + room_of k
    → e.bells ≡ b + bell_of k
    → a < 2 ^ 31
    → c < 2 ^ 31
    → r < 2 ^ 31
    → b < 2 ^ 31
    → ((alight k e).adults ≡ a)
      × ((alight k e).children ≡ c)
      × ((alight k e).rooms ≡ r)
      × ((alight k e).bells ≡ b)
unfolding alight adult_of child_of room_of bell_of
alight_counts adult e a c r b ha hc hr hb la lc lr lb = omega arith
alight_counts _ e a c r b ha hc hr hb la lc lr lb = omega arith

pub board_counts :
    (k : PType) (e : Elevator)
    → e.adults < 2 ^ 31
    → e.children < 2 ^ 31
    → e.rooms < 2 ^ 31
    → e.bells < 2 ^ 31
    → ((board k e).adults ≡ e.adults + adult_of k)
      × ((board k e).children ≡ e.children + child_of k)
      × ((board k e).rooms ≡ e.rooms + room_of k)
      × ((board k e).bells ≡ e.bells + bell_of k)
unfolding board adult_of child_of room_of bell_of
board_counts adult e la lc lr lb = omega arith
board_counts _ e la lc lr lb = omega arith

-- What `count_in` and `count_out` leave alone.
pub record SameQueue (fl fl' : Floors) : Type 0 where
  pub waiting : fl'.waiting ≡ fl.waiting
  pub level : fl'.level ≡ fl.level
  pub w_units : fl'.w_units ≡ fl.w_units
  pub p_units : fl'.p_units ≡ fl.p_units
  pub serviced : fl'.serviced ≡ fl.serviced

pub count_in-SameQueue : (k : PType) (fl : Floors) → SameQueue fl (count_in k fl)
unfolding count_in
count_in-SameQueue adult fl = ground arith
count_in-SameQueue _ fl = ground arith

pub count_out-SameQueue : (k : PType) (fl : Floors) → SameQueue fl (count_out k fl)
unfolding count_out
count_out-SameQueue adult fl = ground arith
count_out-SameQueue _ fl = ground arith

-- On a floor the counters wrap, so they are compared with sums modulo 2 ^ 32.
pub count_in_counts :
    (k : PType) (fl : Floors) (a c r b : ℕ)
    → fl.adults ≡ a % 2 ^ 32
    → fl.children ≡ c % 2 ^ 32
    → fl.rooms ≡ r % 2 ^ 32
    → fl.bells ≡ b % 2 ^ 32
    → ((count_in k fl).adults ≡ (a + adult_of k) % 2 ^ 32)
      × ((count_in k fl).children ≡ (c + child_of k) % 2 ^ 32)
      × ((count_in k fl).rooms ≡ (r + room_of k) % 2 ^ 32)
      × ((count_in k fl).bells ≡ (b + bell_of k) % 2 ^ 32)
unfolding count_in adult_of child_of room_of bell_of
count_in_counts adult fl a c r b ha hc hr hb = omega arith
count_in_counts _ fl a c r b ha hc hr hb = omega arith

pub count_out_counts :
    (k : PType) (fl : Floors) (a c r b : ℕ)
    → fl.adults ≡ (adult_of k + a) % 2 ^ 32
    → fl.children ≡ (child_of k + c) % 2 ^ 32
    → fl.rooms ≡ (room_of k + r) % 2 ^ 32
    → fl.bells ≡ (bell_of k + b) % 2 ^ 32
    → ((count_out k fl).adults ≡ a % 2 ^ 32)
      × ((count_out k fl).children ≡ c % 2 ^ 32)
      × ((count_out k fl).rooms ≡ r % 2 ^ 32)
      × ((count_out k fl).bells ≡ b % 2 ^ 32)
unfolding count_out adult_of child_of room_of bell_of
count_out_counts adult fl a c r b ha hc hr hb = omega arith
count_out_counts _ fl a c r b ha hc hr hb = omega arith

-- One queue of the elevator is replaced.
aboard-update :
    (g : Passenger → ℕ) (q : ℕ → List Passenger) (c : ℕ) (l : List Passenger)
    → c < 10
    → aboard g (update q c l) + tally g (q c) ≡ aboard g q + tally g l
aboard-update g q c l lt = sum_below-update 10 (tally g) q c l lt

pub aboard-cons :
    (g : Passenger → ℕ) (q : ℕ → List Passenger) (c : ℕ) (p : Passenger) (ps : List Passenger)
    → c < 10
    → q c ≡ p ∷ ps
    → aboard g q ≡ aboard g (update q c ps) + g p
aboard-cons g q c p ps lt h =
    omega (arith, aboard-update g q c ps lt, ap (tally g) h, tally-cons g p ps)

pub aboard_snoc :
    (g : Passenger → ℕ) (q : ℕ → List Passenger) (c : ℕ) (p : Passenger)
    → c < 10
    → aboard g (update q c (q c ++ p ∷ [])) ≡ aboard g q + g p
aboard_snoc g q c p lt = omega (arith, aboard-update g q c (q c ++ p ∷ []) lt, tally_snoc g (q c) p)

pub aboard_mono :
    (g h : Passenger → ℕ) (q : ℕ → List Passenger)
    → ((p : Passenger) → g p ≤ h p)
    → aboard g q ≤ aboard h q
aboard_mono g h q e = sum_below_mono 10 _ _ (λ i. tally_mono g h (q i) e)

-- No counter of the elevator exceeds the places taken.
pub counters-le :
    {e : Elevator}
    → ElevatorOk e
    → (e.adults ≤ 10) × (e.children ≤ 10) × (e.rooms ≤ 10) × (e.bells ≤ 10)
counters-le {e} h = omega (
  arith,
  aboard_mono is_adult size e.p (λ p. (counters_small p.kind).0),
  aboard_mono is_child size e.p (λ p. (counters_small p.kind).1),
  aboard_mono is_room size e.p (λ p. (counters_small p.kind).2),
  aboard_mono is_bell size e.p (λ p. (counters_small p.kind).3),
)
