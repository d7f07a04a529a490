-- ===== src/Elevator/Progress/Blocked.antt =====
-- The queue of the bottom floor, when the first in it wants to go to that same floor.
use cop4610_project.Base.{
  ℕ, ◌≡◌, refl, ap, sym, ◌∙◌, subst, Bool, true, false, some, List, [], ◌∷◌, arith, All,
}
use native.Mathlib.Decide.{ℕ_discrete}
use cop4610_project.Elevator.Types.{Passenger, Elevator, Floors, Building, Store}
use cop4610_project.Elevator.Thread.{first_section, second_section, run_elevator}
use cop4610_project.Elevator.Invariant.{WaitsAt, StoreOk}
use cop4610_project.Elevator.Invariant.Loading.{Loaded, Heads}
use cop4610_project.Elevator.Invariant.Servicing.{
  Serviced, asleep, vacant, served, FloorServed, service-Serviced,
}
use cop4610_project.Elevator.Invariant.Advancing.{Advanced, Moved, advance-Advanced}

-- On the bottom floor the elevator goes up.
abbrev pub GoesUp : Elevator → Type 0
GoesUp e = e.current ≡ 0 → e.direction ≡ 1

-- The queue of the bottom floor, from its first passenger on who wants to stay there.
record Blocked (p : Passenger) (ps : List Passenger) (m : Store) : Type 0 where
  queue : (m.b.f 0).waiting ≡ p ∷ ps
  home : p.s_floor ≡ 0
  goal : p.d_floor ≡ 0
  way : GoesUp m.b.e

Loaded-bottom :
    (p : Passenger) (ps taken rest : List Passenger) (b b' : Building)
    → Loaded 0 taken rest b b'
    → (b.f 0).waiting ≡ p ∷ ps
    → p.s_floor ≡ 0
    → p.d_floor ≡ 0
    → b.e.direction ≡ 1
    → (b'.f 0).waiting ≡ p ∷ ps
Loaded-bottom p ps [] rest b b' on queue home goal way = on.left ∙ sym on.queue ∙ queue
Loaded-bottom p ps (q ∷ taken) rest b b' on queue home goal way =
    let first : q ≡ p = cc (on.queue, queue) in
    let up = (subst (λ (x : Passenger). Heads b.e.direction x) first on.directed.0) in
    absurd (ground (arith, up))

-- Loading at floor `c` leaves the queue of the bottom floor as it is.
Loaded-Blocked :
    (c : ℕ) (p : Passenger) (ps taken rest : List Passenger) (m : Store) (b' : Building)
    → m.b.e.current ≡ c
    → Loaded c taken rest m.b b'
    → Blocked p ps m
    → Blocked p ps (record m { b = b' })
Loaded-Blocked c p ps taken rest m b' at on wait = record {
  queue = elim (ℕ_discrete c 0) [
    | yes e ↦
        Loaded-bottom p ps taken rest m.b b' (subst (λ k. Loaded k taken rest m.b b') e on)
          wait.queue wait.home wait.goal (wait.way (at ∙ e))
    | no ne ↦ ap (λ (fl : Floors). fl.waiting) (on.others 0 (λ e. ne (sym e))) ∙ wait.queue
  ];
  home = wait.home;
  goal = wait.goal;
  way = λ h. on.control.direction ∙ wait.way (sym on.control.current ∙ h);
}

FloorServed-Blocked :
    (p : Passenger) (ps : List Passenger) (m m' : Store)
    → FloorServed m.b.e.current m m'
    → Blocked p ps m
    → Blocked p ps m'
FloorServed-Blocked p ps m m' fs wait =
    let off = fs.off.control in
    let between : Blocked p ps fs.between = record {
      queue = fs.off.waiting 0 ∙ wait.queue;
      home = wait.home;
      goal = wait.goal;
      way = λ h. off.direction ∙ wait.way (sym off.current ∙ h);
    } in
    elim (ℕ_discrete m.b.e.shutdown 1) [
      | yes shut ↦ subst (Blocked p ps) (sym (fs.closed shut)) between
      | no going ↦
          let (taken, rest, on) = fs.on going in
          let after =
            Loaded-Blocked m.b.e.current p ps taken rest fs.between m'.b off.current on between in
          record { queue = after.queue; home = after.home; goal = after.goal; way = after.way }
    ]

Serviced-Blocked :
    (p : Passenger) (ps : List Passenger) {m m' : Store}
    → Serviced m m'
    → Blocked p ps m
    → Blocked p ps m'
Serviced-Blocked p ps (asleep off) wait = wait
Serviced-Blocked p ps (vacant duty none empty) wait = wait
Serviced-Blocked p ps {m} {m'} (served duty some_one fs) wait =
    FloorServed-Blocked p ps m m' fs wait

Moved-GoesUp : {e e' : Elevator} → Moved e e' → GoesUp e'
Moved-GoesUp moved h = moved.bottom (sym moved.current ∙ h)

Advanced-Blocked :
    (p : Passenger) (ps : List Passenger) (live : ℕ → Bool) {b b' : Building}
    → Advanced b b'
    → Blocked p ps (record { live = live; b = b })
    → Blocked p ps (record { live = live; b = b' })
Advanced-Blocked p ps live (Advanced.asleep off) wait = wait
Advanced-Blocked p ps live (Advanced.resting duty riders nobody) wait = record {
  queue = wait.queue;
  home = wait.home;
  goal = wait.goal;
  way = wait.way;
}
Advanced-Blocked p ps live (Advanced.closing duty riders waits shut) wait = record {
  queue = wait.queue;
  home = wait.home;
  goal = wait.goal;
  way = wait.way;
}
Advanced-Blocked p ps live (Advanced.moving duty some_one moved) wait = record {
  queue = wait.queue;
  home = wait.home;
  goal = wait.goal;
  way = Moved-GoesUp moved;
}

module _ {leaked : ℕ → ℕ} (p : Passenger) (ps : List Passenger) where
  first_section-Blocked :
      (acquired : Bool) (m : Store)
      → StoreOk leaked m
      → Blocked p ps m
      → (m' : Store) × (first_section acquired m ≡ some m') × StoreOk leaked m' × Blocked p ps m'
  unfolding first_section
  first_section-Blocked false m ok wait = (m, refl, ok, wait)
  first_section-Blocked true m ok wait =
      let (m', run, ok', what) = service-Serviced m ok in
      (m', run, ok', Serviced-Blocked p ps what wait)

  second_section-Blocked :
      (acquired : Bool) (m : Store)
      → StoreOk leaked m
      → Blocked p ps m
      → StoreOk leaked (second_section acquired m) × Blocked p ps (second_section acquired m)
  unfolding second_section
  second_section-Blocked false m ok wait = (ok, wait)
  second_section-Blocked true m ok wait =
      let (b', run, ok', what) = advance-Advanced m ok in
      subst (λ b. StoreOk leaked (record m { b = b }) × Blocked p ps (record m { b = b })) (sym run)
        (ok', Advanced-Blocked p ps m.live what wait)

  rounds-Blocked :
      (rounds : List (Bool × Bool)) (m : Store)
      → StoreOk leaked m
      → Blocked p ps m
      → (m' : Store) × (run_elevator rounds m ≡ some m') × Blocked p ps m'
  unfolding run_elevator
  rounds-Blocked [] m ok wait = (m, refl, wait)
  rounds-Blocked ((one, two) ∷ rounds) m ok wait =
      let (m1, run, ok1, wait1) = first_section-Blocked one m ok wait in
      let (ok2, wait2) = second_section-Blocked two m1 ok1 wait1 in
      let (m', rest, wait') = rounds-Blocked rounds (second_section two m1) ok2 wait2 in
      (m', rw run rest, wait')

-- A passenger from the bottom floor to the bottom floor, who is the first in the queue there while
-- the elevator, if it stands on that floor, goes up, blocks the queue: after any number of
-- undisturbed rounds, whatever locks are interrupted, the same passengers wait in it.
pub bottom_is_blocked :
    {leaked : ℕ → ℕ} (rounds : List (Bool × Bool)) (m : Store) (p : Passenger) (ps : List Passenger)
    → StoreOk leaked m
    → (m.b.f 0).waiting ≡ p ∷ ps
    → p.d_floor ≡ 0
    → GoesUp m.b.e
    → (m' : Store) × (run_elevator rounds m ≡ some m') × ((m'.b.f 0).waiting ≡ p ∷ ps)
bottom_is_blocked rounds m p ps ok queue goal way =
    let (known, home, low) = (subst (All (WaitsAt 0)) queue (ok.floors 0 (omega arith)).queue).0 in
    let wait : Blocked p ps m = record { queue = queue; home = home; goal = goal; way = way } in
    let (m', run, wait') = rounds-Blocked p ps rounds m ok wait in (m', run, wait'.queue)
