-- ===== src/Elevator/Progress/Delivery.antt =====
-- Everybody who is aboard gets off: rounds of the thread, until the own floor is reached.
use native.Mathlib.Decide.{ℕ_discrete}
use cop4610_project.Base.{
  ℕ, zero, suc, ◌+◌, ◌≤◌, ◌<◌, ◌≡◌, ◌≢◌, refl, ap, sym, ◌∙◌, subst, Bool, true, false, some, List,
  [], ◌∷◌, ◌++◌, arith, occurs, occurs-append,
}
use cop4610_project.Elevator.Types.{offline, Passenger, Elevator, Building, Store}
use cop4610_project.Elevator.Thread.{service, advance, first_section, second_section, run_elevator}
use cop4610_project.Elevator.Invariant.{MotionOk, StoreOk}
use cop4610_project.Elevator.Invariant.Counters.{SameControl}
use mathlib.Core.List.{append-nil}
use cop4610_project.Elevator.Invariant.Loading.{bound_for}
use cop4610_project.Elevator.Invariant.Servicing.{
  Serviced, asleep, vacant, served, FloorServed, service-Serviced,
}
use cop4610_project.Elevator.Invariant.Advancing.{Advanced, advance-Advanced}
use cop4610_project.Elevator.Progress.Sweep.{
  distance, distance-le, distance-Moved, at_floor, on_the_way,
}

-- `n` rounds in which both locks are taken
abbrev pub rounds : ℕ → List (Bool × Bool)
rounds zero = []
rounds (suc n) = (true, true) ∷ rounds n

-- How often the node at `a` stands in the list for floor `d`.
abbrev pub rides : ℕ → ℕ → Elevator → ℕ
rides a d e = occurs (λ q. q.node) a (e.p d)

-- What the first section does for a passenger who goes to floor `d`.
pub record Carried (a d : ℕ) (m m' : Store) : Type 0 where
  pub here : m.b.e.current ≡ d → m'.live a ≡ false
  pub stays : m.b.e.current ≢ d → rides a d m.b.e ≤ rides a d m'.b.e
  pub active : m'.b.e.status ≢ offline
  pub way : distance d m'.b.e ≡ distance d m.b.e
  pub current : m'.b.e.current ≡ m.b.e.current

-- Loading only adds to the lists of the elevator.
record Boarded (d : ℕ) (m m' : Store) : Type 0 where
  extra : List Passenger
  more : m'.b.e.p d ≡ m.b.e.p d ++ extra
  control : SameControl m.b.e m'.b.e

FloorServed-Boarded : (c d : ℕ) (m m' : Store) (fs : FloorServed c m m') → Boarded d fs.between m'
FloorServed-Boarded c d m m' fs = elim (ℕ_discrete m.b.e.shutdown 1) [
  | yes shut ↦ subst (Boarded d fs.between) (sym (fs.closed shut)) (record {
    extra = [];
    more = sym (append-nil (fs.between.b.e.p d));
    control = record {
      status = refl;
      current = refl;
      next = refl;
      shutdown = refl;
      direction = refl;
    };
  })
  | no going ↦
      let (taken, rest, on) = fs.on going in
      record { extra = bound_for d taken; more = on.riders d; control = on.control }
]

pub distance-same :
    (d : ℕ) (e e' : Elevator)
    → e'.current ≡ e.current
    → e'.next ≡ e.next
    → e'.direction ≡ e.direction
    → distance d e' ≡ distance d e
distance-same d e e' current next direction = rw (current, next, direction)

FloorServed-Carried :
    (a d : ℕ) (m m' : Store)
    → 0 < rides a d m.b.e
    → FloorServed m.b.e.current m m'
    → Carried a d m m'
FloorServed-Carried a d m m' on fs =
    let on_board = FloorServed-Boarded m.b.e.current d m m' fs in
    let off = fs.off.control in
    let aboard = on_board.control in
    record {
      here = λ at. ground (arith, fs.blocks, ap (λ (l : ℕ → Bool). l a) fs.blocks, fs.off.freed a);
      stays = λ away. omega (
        arith,
        ap (occurs (λ (q : Passenger). q.node) a) on_board.more,
        occurs-append (λ (q : Passenger). q.node) a (fs.between.b.e.p d) on_board.extra,
        ap (occurs (λ (q : Passenger). q.node) a) (fs.off.others d (λ e. away (sym e))),
      );
      active = λ e. cc;
      way =
          distance-same d m.b.e m'.b.e (aboard.current ∙ off.current) (aboard.next ∙ off.next)
            (aboard.direction ∙ off.direction);
      current = aboard.current ∙ off.current;
    }

pub Serviced-Carried :
    (a d : ℕ) {m m' : Store}
    → m.b.e.status ≢ offline
    → 0 < rides a d m.b.e
    → Serviced m m'
    → Carried a d m m'
unfolding occurs
Serviced-Carried a d active on (asleep off) = absurd (active off)
Serviced-Carried a d {m} active on (vacant duty none empty) = record {
  here = λ at.
      let nobody : m.b.e.p d ≡ [] = subst (λ k. m.b.e.p k ≡ []) at empty in
      absurd (omega (arith, ap (occurs (λ (q : Passenger). q.node) a) nobody));
  stays = λ away. omega arith;
  active = active;
  way = refl;
  current = refl;
}
Serviced-Carried a d {m} {m'} active on (served duty some_one fs) =
    FloorServed-Carried a d m m' on fs

-- After the second section the passenger is still aboard, and one move nearer.
pub record Nearer (a d : ℕ) (b b' : Building) : Type 0 where
  pub stays : rides a d b.e ≤ rides a d b'.e
  pub active : b'.e.status ≢ offline
  pub way : distance d b.e ≡ distance d b'.e + 1

not_empty : (a d : ℕ) (e : Elevator) → 0 < rides a d e → e.p d ≢ []
unfolding occurs
not_empty a d e on nobody = omega (arith, ap (occurs (λ (q : Passenger). q.node) a) nobody)

pub Advanced-Nearer :
    (a d : ℕ) {b b' : Building}
    → MotionOk b.e
    → MotionOk b'.e
    → d < 10
    → b.e.status ≢ offline
    → b.e.current ≢ d
    → 0 < rides a d b.e
    → Advanced b b'
    → Nearer a d b b'
Advanced-Nearer a d ok ok' floor active away on (Advanced.asleep off) = absurd (active off)
Advanced-Nearer a d {b} ok ok' floor active away on (Advanced.resting duty empty quiet) =
    absurd (not_empty a d b.e on (empty d floor))
Advanced-Nearer a d {b} ok ok' floor active away on (Advanced.closing duty empty waits shut) =
    absurd (not_empty a d b.e on (empty d floor))
Advanced-Nearer a d {b} ok ok' floor active away on (Advanced.moving {e'} duty why moved) = record {
  stays = omega (
    arith,
    ap (λ (q : ℕ → List Passenger). occurs (λ (r : Passenger). r.node) a (q d)) moved.riders,
  );
  active = λ e. ground (arith, moved.shown);
  way = distance-Moved d b.e ok floor e' moved ok' away;
}

pub run_elevator-cons :
    (m m1 : Store) (b' : Building) (more : List (Bool × Bool))
    → service m ≡ some m1
    → advance m1.b ≡ b'
    → run_elevator ((true, true) ∷ more) m ≡ run_elevator more (record m1 { b = b' })
unfolding run_elevator first_section second_section
run_elevator-cons m m1 b' more one two =
    rw one (ap (λ (b : Building). run_elevator more (record m1 { b = b })) two)

module _ (leaked : ℕ → ℕ) where
  abbrev Delivered : ℕ → ℕ → Store → Type 0
  Delivered n a m =
      (m' : Store) × (run_elevator (rounds n) m ≡ some m') × StoreOk leaked m' × (m'.live a ≡ false)

  delivers :
      (k a d : ℕ) (m : Store)
      → StoreOk leaked m
      → d < 10
      → m.b.e.status ≢ offline
      → 0 < rides a d m.b.e
      → distance d m.b.e ≡ k
      → Delivered (suc k) a m
  unfolding run_elevator
  delivers zero a d m ok floor active on at =
      let (m1, one, ok1, how) = service-Serviced m ok in
      let (b2, two, ok2, next) = advance-Advanced m1 ok1 in
      let step = Serviced-Carried a d active on how in
      (
        record m1 { b = b2 },
        run_elevator-cons m m1 b2 [] one two,
        ok2,
        step.here (at_floor d m.b.e ok.motion floor at),
      )
  delivers (suc k) a d m ok floor active on at =
      let (m1, one, ok1, how) = service-Serviced m ok in
      let (b2, two, ok2, next) = advance-Advanced m1 ok1 in
      let step = Serviced-Carried a d active on how in
      let away = on_the_way d m.b.e ok.motion floor k at in
      let kept = step.stays away in
      let still : 0 < rides a d m1.b.e = omega arith in
      let near =
        Advanced-Nearer a d ok1.motion ok2.motion floor step.active
          (λ e. away (sym step.current ∙ e)) still next in
      let (m', run, ok', gone) =
        delivers k a d (record m1 { b = b2 }) ok2 floor near.active (omega (arith, near.stays))
          (omega (arith, near.way, step.way)) in
      (m', run_elevator-cons m m1 b2 (rounds (suc k)) one two ∙ run, ok', gone)

  -- Everybody who is aboard an elevator in service is let off, and the block is freed, within 18
  -- rounds of the thread, where nothing else happens meanwhile. No round faults.
  pub aboard_is_delivered :
      (a d : ℕ) (m : Store)
      → StoreOk leaked m
      → d < 10
      → m.b.e.status ≢ offline
      → 0 < occurs (λ q. q.node) a (m.b.e.p d)
      → (n : ℕ) × (n ≤ 18)
        × (m' : Store) × (run_elevator (rounds n) m ≡ some m')
        × (m'.live a ≡ false)
  aboard_is_delivered a d m ok floor active on =
      let short = distance-le d m.b.e ok.motion floor in
      let (m', run, ok', gone) = delivers (distance d m.b.e) a d m ok floor active on refl in
      (suc (distance d m.b.e), omega arith, m', run, gone)
