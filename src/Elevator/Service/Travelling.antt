-- ===== src/Elevator/Service/Travelling.antt =====
-- How the service answers the second critical section of runElevator.
use cop4610_project.Base.{inl, inr, ◌⊎◌, ◌+◌, ℕ, ◌<◌, ◌≡◌, refl, ap, sym, ◌∙◌, Bool, arith}
use cop4610_project.Elevator.Types.{Elevator, Building, Store}
use cop4610_project.Elevator.Invariant.{aboard, MotionOk}
use cop4610_project.Elevator.Invariant.Advancing.{Advanced, Moved}
use cop4610_project.Elevator.Service.{Service}
use cop4610_project.Elevator.Service.Measures.{Shows}

-- Where the service may be after the second section.
abbrev pub Rides : Service → Service → Type 0
Rides c d =
    (d ≡ c)
    ⊎ ((i : ℕ) × (i < 10) × ((i ≡ c.floor + 1) ⊎ (c.floor ≡ i + 1)) × (d ≡ record c { floor = i }))

-- The second section: the elevator stays, or goes to a floor next to it.
pub record Travels (c : Service) (m : Store) : Type 0 where
  pub after : Service
  pub rides : Rides c after
  pub shows : Shows m after
  pub calling : after.calling ≡ c.calling

pub same-Travels : (c : Service) (m : Store) → Shows m c → Travels c m
same-Travels c m sh = record { after = c; rides = inl refl; shows = sh; calling = refl }

-- One move of the sweep.
Moved-Travels :
    (c : Service) (m : Store) (e' : Elevator)
    → MotionOk m.b.e
    → Shows m c
    → Moved m.b.e e'
    → Travels c (record m { b = record (m.b) { e = e' } })
Moved-Travels c m e' ok sh moved = record {
  after = record c { floor = m.b.e.next };
  rides = inr (m.b.e.next, ok.next, ground (arith, sh.floor, ok.heading), refl);
  shows = record {
    waiting = sh.waiting;
    aboard = λ g. sh.aboard g ∙ ap (aboard g) (sym moved.riders);
    floor = sym moved.current;
    served = sh.served;
  };
  calling = refl;
}

pub Advanced-Travels :
    (c : Service) (live : ℕ → Bool) {b b' : Building}
    → MotionOk b.e
    → Shows (record { b = b; live = live }) c
    → Advanced b b'
    → Travels c (record { b = b'; live = live })
Advanced-Travels c live ok sh (Advanced.asleep off) = same-Travels c _ sh
Advanced-Travels c live ok sh (Advanced.resting duty riders nobody) =
    same-Travels c _
      (record { waiting = sh.waiting; aboard = sh.aboard; floor = sh.floor; served = sh.served })
Advanced-Travels c live ok sh (Advanced.closing duty riders waits shut) =
    same-Travels c _
      (record { waiting = sh.waiting; aboard = sh.aboard; floor = sh.floor; served = sh.served })
Advanced-Travels c live {b} ok sh (Advanced.moving {e' = e'} duty some_one moved) =
    Moved-Travels c (record { b = b; live = live }) e' ok sh moved
