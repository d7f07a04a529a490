-- ===== src/Elevator/Progress/Stopping.antt =====
-- After stop_elevator: everybody aboard is let off, nobody boards, and the elevator closes or rests.
use cop4610_project.Elevator.Exit.Freeing.{sum_below_zero}
use cop4610_project.Base.{
  if◌then◌else◌, occurs, sum_below-congr, elem-le-sum_below, ℕ, zero, suc, ◌≤◌, ◌<◌, ◌≡◌, ◌≢◌, ◌⊎◌,
  inl, inr, refl, ap, ◌∙◌, subst, Bool, Bool-cases, true, false, some, List, [], ◌∷◌, arith,
}
use cop4610_project.Elevator.Types.{idle, offline, Passenger, Building, Store}
use cop4610_project.Elevator.Thread.{run_elevator}
use cop4610_project.Elevator.Requests.{stop_elevator}
use cop4610_project.Elevator.Invariant.{StoreOk}
use cop4610_project.Elevator.Invariant.Requesting.{stop_elevator-StoreOk}
use cop4610_project.Elevator.Invariant.Servicing.{service-Serviced}
use cop4610_project.Elevator.Invariant.Advancing.{
  NobodyWaits, NobodyRides, SomebodyWaits, advance-Advanced,
}
use cop4610_project.Elevator.Progress.Sweep.{distance-le}
use cop4610_project.Elevator.Progress.Delivery.{rounds, run_elevator-cons}
use cop4610_project.Elevator.Progress.Closing.{
  Reached, SameQueues, Stopping, Serviced-LetOff, Stopped, Next, queues-same, somebody-same,
  Advanced-Next,
}

-- Rounds until the elevator has stopped.
abbrev Stops : (leaked : ℕ → ℕ) (n : ℕ) → Store → Type 0
Stops leaked n m =
    (k : ℕ) × (k ≤ n)
    × (m' : Store) × (run_elevator (rounds k) m ≡ some m')
    × StoreOk leaked m'
    × Stopped m.b m'.b

-- One round of an elevator that was asked to shut down.
round_to_the_end :
    {leaked : ℕ → ℕ} (n : ℕ) (m : Store)
    → Stopping leaked m
    → Reached (suc n) m.b.e
    → (m' : Store) × ((more : List (Bool × Bool))
        → run_elevator ((true, true) ∷ more) m ≡ run_elevator more m')
      × StoreOk leaked m'
      × Next leaked n m.b m'
round_to_the_end n m s near =
    let (m1, one, ok1, how) = service-Serviced m s.ok in
    let (b', two, ok2, then_how) = advance-Advanced m1 ok1 in
    (
      record m1 { b = b' },
      λ more. run_elevator-cons m m1 b' more one two,
      ok2,
      Advanced-Next n m m1 ok1 ok2 (Serviced-LetOff s how) near then_how,
    )

Stopped-later : (b b1 b' : Building) → SameQueues b b1 → Stopped b1 b' → Stopped b b'
Stopped-later b b1 b' same end = record {
  empty = end.empty;
  same = λ i. end.same i ∙ same i;
  how = elim end.how [
    | inl (off, waits) ↦ inl (off, somebody-same b b1 same waits)
    | inr (rests, quiet) ↦ inr (rests, queues-same b b1 same quiet)
  ];
}

stops :
    {leaked : ℕ → ℕ} (n : ℕ) (m : Store)
    → Stopping leaked m
    → Reached (suc n) m.b.e
    → Stops leaked (suc n) m
unfolding run_elevator
stops zero m s near =
    let (m', run, ok', next) = round_to_the_end zero m s near in
    elim next [
      | inl end ↦ (1, omega arith, m', run [], ok', end)
      | inr (going, (i, li, rides), nearer, same) ↦ elim (nearer i li) [
        | inl nobody ↦ absurd (rides nobody)
        | inr never ↦ absurd (omega (arith, never))
      ]
    ]
stops (suc n) m s near =
    let (m', run, ok', next) = round_to_the_end (suc n) m s near in
    elim next [
      | inl end ↦ (1, omega arith, m', run [], ok', end)
      | inr (going, riders, nearer, same) ↦
          let (k, short, m'', more, ok'', end) = stops n m' going nearer in
          (
            suc k,
            omega (arith, short),
            m'',
            run (rounds k) ∙ more,
            ok'',
            Stopped-later m.b m'.b m''.b same end,
          )
    ]

abbrev bit : Bool → ℕ
bit v = if v then 1 else 0

bit-le : (v : Bool) → bit v ≤ 1
bit-le true = omega arith
bit-le false = omega arith

-- A block whose node stood in a list of the elevator is free where the lists are empty.
riders_freed :
    {leaked : ℕ → ℕ} (m m' : Store)
    → StoreOk leaked m
    → StoreOk leaked m'
    → Stopped m.b m'.b
    → (a d : ℕ) → d < 10
    → 0 < occurs (λ q. q.node) a (m.b.e.p d)
    → m'.live a ≡ false
unfolding occurs
riders_freed m m' ok ok' end a d floor on =
    let in_list = occurs (λ (q : Passenger). q.node) a in
    let waiting =
      sum_below-congr 10 (λ i. in_list (m'.b.f i).waiting) (λ i. in_list (m.b.f i).waiting)
        (λ i li. ap in_list (end.same i)) in
    let riding = sum_below_zero (λ i. in_list (m'.b.e.p i)) (λ i li. ap in_list (end.empty i li)) in
    let before = elem-le-sum_below 10 (λ i. in_list (m.b.e.p i)) d floor in
    let none : bit (m'.live a) ≡ 0 =
      omega (arith, ok.blocks a, ok'.blocks a, waiting, riding, before, bit-le (m.live a), on) in
    elim (Bool-cases (m'.live a)) [
      | inl live ↦ absurd (omega (arith, none, ap bit live))
      | inr dead ↦ dead
    ]

-- stop_elevator on an elevator in service returns 0; within 18 rounds of the thread, where no lock is
-- interrupted and nothing else happens meanwhile, everybody aboard is let off and the blocks are
-- freed, while the queues of the floors stay as they are; then the elevator is offline if somebody
-- waits, and idle, not offline, if nobody does. No round faults, and the invariant holds then.
pub stop_elevator-stops :
    {leaked : ℕ → ℕ} (m : Store)
    → StoreOk leaked m
    → m.b.e.shutdown ≡ 0
    → m.b.e.status ≢ offline
    → ((stop_elevator true m).1 ≡ 0)
      × (n : ℕ) × (n ≤ 18)
      × (m' : Store) × (run_elevator (rounds n) (stop_elevator true m).0 ≡ some m')
      × StoreOk leaked m'
      × NobodyRides m'.b.e
      × ((a d : ℕ) → d < 10 → 0 < occurs (λ q. q.node) a (m.b.e.p d) → m'.live a ≡ false)
      × ((i : ℕ) → (m'.b.f i).waiting ≡ (m.b.f i).waiting)
      × (((m'.b.e.status ≡ offline) × SomebodyWaits m.b)
          ⊎ ((m'.b.e.status ≡ idle) × NobodyWaits m.b))
unfolding stop_elevator
stop_elevator-stops {leaked} m ok going active =
    let asked : Store = record m { b = record (m.b) { e = record (m.b.e) { shutdown = 1 } } } in
    let same : stop_elevator true m ≡ (asked, 0) = stopped_store m going in
    let s : Stopping leaked asked = record {
      ok =
          subst (StoreOk leaked) (ap (λ (r : Store × ℕ). r.0) same)
            (stop_elevator-StoreOk m true ok);
      shut = refl;
      active = active;
    } in
    let (n, short, m', run, ok', end) =
      stops 17 asked s
        (λ d floor. inr (omega (arith, distance-le d asked.b.e s.ok.motion floor))) in
    (
      ap (λ (r : Store × ℕ). r.1) same,
      n,
      short,
      m',
      ap (λ (r : Store × ℕ). run_elevator (rounds n) r.0) same ∙ run,
      ok',
      end.empty,
      riders_freed asked m' s.ok ok' end,
      end.same,
      end.how,
    )
  where
    stopped_store :
        (m : Store)
        → m.b.e.shutdown ≡ 0
        → stop_elevator true m
          ≡ (record m { b = record (m.b) { e = record (m.b.e) { shutdown = 1 } } }, 0)
    stopped_store m going = rw going refl
