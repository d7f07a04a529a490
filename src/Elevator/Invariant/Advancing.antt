-- ===== src/Elevator/Invariant/Advancing.antt =====
-- The second critical section of runElevator: rest, close, or go to the next floor.
use native.Mathlib.Decide.{ℕ_discrete}
use cop4610_project.Base.{
  ℕ, zero, suc, ◌+◌, ◌≤◌, ◌<◌, ◌≡◌, ◌≢◌, ◌⊎◌, sym, subst, ap, ◌∙◌, All, true, false, ◌==◌, List, [],
  arith, Bool-cases, inl, inr, is_empty,
}
use cop4610_project.Elevator.Types.{idle, offline, up, down, Passenger, Elevator, Building, Store}
use cop4610_project.Elevator.Checks.{occupied_from, check_building, check_elevator}
use cop4610_project.Elevator.Thread.{is_offline, travel, advance}
use cop4610_project.Elevator.Invariant.{
  RidesTo, weight, size, is_adult, is_child, is_room, is_bell, aboard, ElevatorOk, MotionOk,
  BlocksOk, StoreOk,
}
use cop4610_project.Elevator.Invariant.Control.{
  set_status-StoreOk, offline_of_test, not_offline_of_test,
}
use cop4610_project.Elevator.Invariant.Servicing.{is_empty-true, is_empty-false}

pub occupied_from-false :
    (n : ℕ) (q : ℕ → List Passenger) (i : ℕ)
    → occupied_from n q i ≡ false
    → (j : ℕ) → i ≤ j
    → j < i + n
    → q j ≡ []
unfolding occupied_from
occupied_from-false zero q i h j low high = absurd (omega arith)
occupied_from-false (suc n) q i h j low high = elim (ℕ_discrete i j) [
  | yes e ↦ subst (λ k. q k ≡ []) e (is_empty-true (q i) (ground arith))
  | no ne ↦ occupied_from-false n q (i + 1) (ground arith) j (omega arith) (omega arith)
]

pub occupied_from-true :
    (n : ℕ) (q : ℕ → List Passenger) (i : ℕ)
    → occupied_from n q i ≡ true
    → (j : ℕ) × (i ≤ j) × (j < i + n) × (q j ≢ [])
unfolding occupied_from
occupied_from-true zero q i h = cc
occupied_from-true (suc n) q i h = elim (Bool-cases (is_empty (q i))) [
  | inl none ↦
      let (j, low, high, some_one) = occupied_from-true n q (i + 1) (ground arith) in
      (j, omega arith, omega arith, some_one)
  | inr here ↦ (i, omega arith, omega arith, is_empty-false (q i) here)
]

abbrev pub NobodyWaits : Building → Type 0
NobodyWaits b = (i : ℕ) → i < 10 → (b.f i).waiting ≡ []

abbrev pub NobodyRides : Elevator → Type 0
NobodyRides e = (i : ℕ) → i < 10 → e.p i ≡ []

abbrev pub SomebodyWaits : Building → Type 0
SomebodyWaits b = (i : ℕ) × (i < 10) × ((b.f i).waiting ≢ [])

abbrev pub SomebodyRides : Elevator → Type 0
SomebodyRides e = (i : ℕ) × (i < 10) × (e.p i ≢ [])

-- checkBuilding and checkElevator decide these.
pub check_building-decides :
    (b : Building)
    → ((check_building b ≡ true) × SomebodyWaits b) ⊎ ((check_building b ≡ false) × NobodyWaits b)
unfolding check_building
check_building-decides b = elim (Bool-cases (check_building b)) [
  | inl h ↦
      let (j, low, high, ne) = occupied_from-true 10 (λ i. (b.f i).waiting) 0 h in
      inl (h, (j, omega arith, ne))
  | inr h ↦
      inr
        (h, λ i li. occupied_from-false 10 (λ k. (b.f k).waiting) 0 h i (omega arith) (omega arith))
]

pub check_elevator-decides :
    (e : Elevator)
    → ((check_elevator e ≡ true) × SomebodyRides e) ⊎ ((check_elevator e ≡ false) × NobodyRides e)
unfolding check_elevator
check_elevator-decides e = elim (Bool-cases (check_elevator e)) [
  | inl h ↦ let (j, low, high, ne) = occupied_from-true 10 e.p 0 h in inl (h, (j, omega arith, ne))
  | inr h ↦ inr (h, λ i li. occupied_from-false 10 e.p 0 h i (omega arith) (omega arith))
]

-- One move of the sweep: to the announced floor, turning at the bottom and at the top.
pub record Moved (e e' : Elevator) : Type 0 where
  pub current : e'.current ≡ e.next
  pub bottom : e.next ≡ 0 → e'.direction ≡ 1
  pub top : e.next ≡ 9 → e'.direction ≡ 0
  pub on_the_way : e.next ≢ 0 → e.next ≢ 9 → e'.direction ≡ e.direction
  pub shown : ((e'.status ≡ up) × (e'.direction ≡ 1)) ⊎ ((e'.status ≡ down) × (e'.direction ≡ 0))
  pub shutdown : e'.shutdown ≡ e.shutdown
  pub riders : e'.p ≡ e.p

pub travel-Moved : (e : Elevator) → MotionOk e → Moved e (travel e)
unfolding travel
travel-Moved e ok = ground arith

pub travel-MotionOk : (e : Elevator) → MotionOk e → MotionOk (travel e)
unfolding travel
travel-MotionOk e ok = ground arith

-- The outcomes of the section.
pub data Advanced (b : Building) : Building → Type 0 where
  asleep : b.e.status ≡ offline → Advanced b b
  resting :
      b.e.status ≢ offline
      → NobodyRides b.e
      → NobodyWaits b
      → Advanced b (record b { e = record (b.e) { status = idle } })
  closing :
      b.e.status ≢ offline
      → NobodyRides b.e
      → SomebodyWaits b
      → b.e.shutdown ≢ 0
      → Advanced b (record b { e = record (b.e) { status = offline } })
  moving :
      {e' : Elevator}
      → b.e.status ≢ offline
      → SomebodyRides b.e ⊎ (SomebodyWaits b × (b.e.shutdown ≡ 0))
      → Moved b.e e'
      → Advanced b (record b { e = e' })

-- The counters and the lists of the elevator are left alone.
record SameLoad (e e' : Elevator) : Type 0 where
  p : e'.p ≡ e.p
  w_units : e'.w_units ≡ e.w_units
  p_units : e'.p_units ≡ e.p_units
  adults : e'.adults ≡ e.adults
  children : e'.children ≡ e.children
  rooms : e'.rooms ≡ e.rooms
  bells : e'.bells ≡ e.bells

SameLoad-ElevatorOk : {e e' : Elevator} → SameLoad e e' → ElevatorOk e → ElevatorOk e'
SameLoad-ElevatorOk same old =
    let over = λ (g : Passenger → ℕ). ap (aboard g) (sym same.p) in
    record {
      queues = λ i li. subst (λ q. All (RidesTo i) (q i)) (sym same.p) (old.queues i li);
      w_units = same.w_units ∙ old.w_units ∙ over weight;
      p_units = same.p_units ∙ old.p_units ∙ over size;
      adults = same.adults ∙ old.adults ∙ over is_adult;
      children = same.children ∙ old.children ∙ over is_child;
      rooms = same.rooms ∙ old.rooms ∙ over is_room;
      bells = same.bells ∙ old.bells ∙ over is_bell;
      w_max = omega (arith, same.w_units, old.w_max);
      p_max = omega (arith, same.p_units, old.p_max);
    }

travel-SameLoad : (e : Elevator) → SameLoad e (travel e)
unfolding travel
travel-SameLoad e = ground arith

travel-StoreOk :
    {leaked : ℕ → ℕ} (m : Store)
    → StoreOk leaked m
    → StoreOk leaked (record m { b = record (m.b) { e = travel m.b.e } })
travel-StoreOk {leaked} m ok =
    let same = travel-SameLoad m.b.e in
    record {
      floors = ok.floors;
      elevator = SameLoad-ElevatorOk same ok.elevator;
      motion = travel-MotionOk m.b.e ok.motion;
      blocks =
          subst
            (λ q. BlocksOk leaked (record m { b = record (m.b) { e = record (m.b.e) { p = q } } }))
            (sym same.p) ok.blocks;
    }

module _ {leaked : ℕ → ℕ} (m : Store) (ok : StoreOk leaked m) where
  abbrev pub Outcome : Type 0
  Outcome =
      (b' : Building) × (advance m.b ≡ b') × StoreOk leaked (record m { b = b' }) × Advanced m.b b'

  active_outcome : is_offline m.b.e.status ≡ false → Outcome
  unfolding advance
  active_outcome active =
      let on_duty = not_offline_of_test m.b.e.status active in
      let go = travel-StoreOk m ok in
      let moves = travel-Moved m.b.e ok.motion in
      elim (check_elevator-decides m.b.e) [
        | inl (rides, riders) ↦ (
          record (m.b) { e = travel m.b.e },
          rw (active, rides),
          go,
          Advanced.moving on_duty (inl riders) moves,
        )
        | inr (empty, no_riders) ↦ elim (check_building-decides m.b) [
          | inr (quiet, nobody) ↦ (
            record (m.b) { e = record (m.b.e) { status = idle } },
            rw (active, empty, quiet),
            set_status-StoreOk ok idle,
            Advanced.resting on_duty no_riders nobody,
          )
          | inl (waits, some_one) ↦ elim (Bool-cases (m.b.e.shutdown == 0)) [
            | inl going ↦ (
              record (m.b) { e = travel m.b.e },
              rw (active, empty, waits, going),
              go,
              Advanced.moving on_duty (inr (some_one, ground arith)) moves,
            )
            | inr shut ↦ (
              record (m.b) { e = record (m.b.e) { status = offline } },
              rw (active, empty, waits, shut),
              set_status-StoreOk ok offline,
              Advanced.closing on_duty no_riders some_one (ground arith),
            )
          ]
        ]
      ]

  -- The section keeps the invariant and has one of the four outcomes.
  pub advance-Advanced : Outcome
  unfolding advance
  advance-Advanced = elim (Bool-cases (is_offline m.b.e.status)) [
    | inl off ↦ (m.b, rw off, ok, Advanced.asleep (offline_of_test m.b.e.status off))
    | inr active ↦ active_outcome active
  ]
