-- ===== src/Elevator/Progress/Sweep.antt =====
-- The order in which the elevator visits the floors.
use cop4610_project.Base.{
  ℕ, zero, suc, ◌+◌, ◌-◌, ◌≤◌, ◌<◌, ◌≡◌, ◌≢◌, refl, if◌then◌else◌, leb, ◌==◌, arith,
}
use cop4610_project.Elevator.Types.{Elevator}
use cop4610_project.Elevator.Thread.{travel}
use cop4610_project.Elevator.Invariant.{MotionOk}
use cop4610_project.Elevator.Invariant.Advancing.{Moved, travel-Moved, travel-MotionOk}

-- How many moves it takes to floor `d`: straight on, or over the turning point ahead. The last case
-- but two is that of a restart on the bottom floor in the old direction.
abbrev pub distance : ℕ → Elevator → ℕ
distance d e =
    if e.direction == 1
    then (if leb e.current d then d - e.current else 18 - e.current - d)
    else if e.next == e.current + 1
    then (if leb d 1 then d else d + 2)
    else if leb d e.current
    then e.current - d
    else e.current + d

module _ (d : ℕ) (e : Elevator) (ok : MotionOk e) (floor : d < 10) where
  pub distance-le : distance d e ≤ 17
  distance-le = ground arith

  pub at_floor : distance d e ≡ 0 → e.current ≡ d
  at_floor h = ground arith

  pub on_the_way : (k : ℕ) → distance d e ≡ suc k → e.current ≢ d
  on_the_way k h = ground arith

  -- Every move brings each floor nearer by one, until it is reached.
  pub distance-Moved :
      (e' : Elevator) → Moved e e' → MotionOk e' → e.current ≢ d → distance d e ≡ distance d e' + 1
  distance-Moved e' m ok' away = ground arith

-- `n` moves, one after the other
unfoldable pub travels : ℕ → Elevator → Elevator
travels zero e = e
travels (suc n) e = travels n (travel e)

travels-distance :
    (k d : ℕ) (e : Elevator) → MotionOk e → d < 10 → distance d e ≡ k → (travels k e).current ≡ d
unfolding travels
travels-distance zero d e ok floor at = at_floor d e ok floor at
travels-distance (suc k) d e ok floor at =
    let away = on_the_way d e ok floor k at in
    let ok' = travel-MotionOk e ok in
    let nearer = distance-Moved d e ok floor (travel e) (travel-Moved e ok) ok' away in
    travels-distance k d (travel e) ok' floor (omega arith)

-- From every valid position the sweep reaches every floor of the building in at most 17 moves.
pub travels-reach :
    (d : ℕ) (e : Elevator) → MotionOk e → d < 10 → (n : ℕ) × (n ≤ 17) × ((travels n e).current ≡ d)
travels-reach d e ok floor =
    (distance d e, distance-le d e ok floor, travels-distance (distance d e) d e ok floor refl)
