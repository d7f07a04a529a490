-- ===== src/Elevator/Progress/Turning.antt =====
-- How many moves it takes until the elevator stands on a floor and goes in a direction.
use cop4610_project.Base.{ℕ, ◌+◌, ◌-◌, ◌≤◌, ◌<◌, ◌≡◌, ◌⊎◌, if◌then◌else◌, leb, ◌==◌, arith}
use cop4610_project.Elevator.Types.{Elevator}
use cop4610_project.Elevator.Invariant.{MotionOk}
use cop4610_project.Elevator.Invariant.Advancing.{Moved}

-- From one place to another of the cycle of eighteen places, 0 to 8 on the way up and 9 to 17 down.
abbrev pub ahead : (target place : ℕ) → ℕ
ahead target place = if leb place target then target - place else target + 18 - place

-- The place of a floor in a direction.
abbrev pub place_of : (floor direction : ℕ) → ℕ
place_of floor direction = if direction == 1 then floor else 18 - floor

-- After a restart on the bottom floor in the old direction the next place is 17.
abbrev pub turn : (floor direction : ℕ) → Elevator → ℕ
turn floor direction e =
    let target = place_of floor direction in
    if e.direction == 1
    then ahead target e.current
    else if e.next == e.current + 1
    then 1 + ahead target 17
    else ahead target (18 - e.current)

-- A floor and a direction in which somebody may want to leave it.
abbrev pub Leaves : (floor direction : ℕ) → Type 0
Leaves floor direction =
    ((direction ≡ 1) × (floor < 9)) ⊎ ((direction ≡ 0) × (1 ≤ floor) × (floor < 10))

module _ (f dir : ℕ) (e : Elevator) (ok : MotionOk e) (leaves : Leaves f dir) where
  pub turn-le : turn f dir e ≤ 18
  turn-le = ground arith

  pub turned : turn f dir e ≡ 0 → (e.current ≡ f) × (e.direction ≡ dir)
  turned h = (ground arith, ground arith)

  -- Every move comes nearer by one, until it is there.
  pub turn-Moved :
      (e' : Elevator) (k : ℕ) → Moved e e' → MotionOk e' → turn f dir e ≡ k + 1 → turn f dir e' ≡ k
  turn-Moved e' k m ok' at = ground arith
