-- ===== src/Elevator/Progress/Rounds.antt =====
-- One round of the thread, and what is left to do after it.
use cop4610_project.Base.{
  ℕ, ◌<◌, ◌≡◌, ◌⊎◌, inl, inr, refl, ap, ◌∙◌, Bool, true, List, ◌∷◌, arith, tally, sum_below,
}
use cop4610_project.Elevator.Types.{Passenger, Elevator, Building, Store}
use cop4610_project.Elevator.Thread.{run_elevator}
use cop4610_project.Elevator.Invariant.{aboard, MotionOk, StoreOk}
use cop4610_project.Elevator.Invariant.Servicing.{service-Serviced}
use cop4610_project.Elevator.Invariant.Advancing.{Moved, Advanced, advance-Advanced}
use cop4610_project.Elevator.Service.Measures.{queued}
use cop4610_project.Elevator.System.Start.{tally-nil}
use cop4610_project.Elevator.Exit.Freeing.{sum_below_zero}
use cop4610_project.Elevator.Progress.Delivery.{run_elevator-cons}
use cop4610_project.Elevator.Progress.Working.{one, left, Working, Idle, Serviced-Served}

-- A round in which nobody boards, nobody gets off, and the elevator goes to the next floor.
pub record Passing (m m' : Store) : Type 0 where
  pub idle : Idle m m'
  pub before : Elevator
  pub before_ok : MotionOk before
  pub same :
      (before.current ≡ m.b.e.current)
      × (before.next ≡ m.b.e.next)
      × (before.direction ≡ m.b.e.direction)
  pub moved : Moved before m'.b.e

-- What the second section does after the first.
record Closed (leaked : ℕ → ℕ) (m : Store) (b' : Building) : Type 0 where
  working : Working leaked (record m { b = b' })
  same : (b'.f ≡ m.b.f) × (b'.e.p ≡ m.b.e.p)
  moved : (left m.b ≡ 0) ⊎ Moved m.b.e b'.e

Advanced-Closed :
    {leaked : ℕ → ℕ} (m : Store) {b' : Building}
    → Working leaked m
    → StoreOk leaked (record m { b = b' })
    → Advanced m.b b'
    → Closed leaked m b'
Advanced-Closed m w ok' (Advanced.asleep off) = absurd (w.active off)
Advanced-Closed m w ok' (Advanced.resting duty nobody quiet) = record {
  working = record { ok = ok'; going = w.going; active = λ e. cc; queues = w.queues };
  same = (refl, refl);
  moved =
      let riders =
        sum_below_zero (λ i. tally one (m.b.e.p i)) (λ i li. tally-nil one (nobody i li)) in
      let waiting =
        sum_below_zero (λ i. tally one (m.b.f i).waiting) (λ i li. tally-nil one (quiet i li)) in
      inl (omega (arith, riders, waiting));
}
Advanced-Closed m w ok' (Advanced.closing duty nobody waits shut) = absurd (shut w.going)
Advanced-Closed m w ok' (Advanced.moving {e'} duty why moved) = record {
  working = record {
    ok = ok';
    going = moved.shutdown ∙ w.going;
    active = λ e. ground (arith, moved.shown);
    queues = w.queues;
  };
  same = (refl, moved.riders);
  moved = inr moved;
}

same_left : (b b' : Building) → b'.f ≡ b.f → b'.e.p ≡ b.e.p → left b' ≡ left b
same_left b b' f p =
    let waiting : queued one b' ≡ queued one b =
      ap (λ (h : ℕ → _). sum_below 10 (λ i. tally one (h i).waiting)) f in
    let riders : aboard one b'.e.p ≡ aboard one b.e.p = ap (aboard one) p in
    omega (arith, waiting, riders)

-- A round, where there is something to do, leaves less to do, or passes on to the next floor.
pub round-Working :
    {leaked : ℕ → ℕ} (m : Store)
    → Working leaked m
    → 0 < left m.b
    → (m' : Store) × ((more : List (Bool × Bool))
        → run_elevator ((true, true) ∷ more) m ≡ run_elevator more m')
      × Working leaked m'
      × ((left m'.b < left m.b) ⊎ Passing m m')
round-Working m w busy =
    let (m1, run1, ok1, how1) = service-Serviced m w.ok in
    let s = Serviced-Served w ok1 how1 in
    let (b', run2, ok2, how2) = advance-Advanced m1 ok1 in
    let c = Advanced-Closed m1 s.working ok2 how2 in
    let m' : Store = record m1 { b = b' } in
    let same = same_left m1.b b' c.same.0 c.same.1 in
    (
      m',
      λ more. run_elevator-cons m m1 b' more run1 run2,
      c.working,
      elim s.less [
        | inl less ↦ inl (omega (arith, same))
        | inr idle ↦ elim c.moved [
          | inl done ↦ inl (omega (arith, same))
          | inr moved ↦ inr (record {
            idle = record {
              riders = λ i li. ap (λ (p : ℕ → List Passenger). p i) c.same.1 ∙ idle.riders i li;
              waiting = λ i li. ap (λ (f : ℕ → _). (f i).waiting) c.same.0 ∙ idle.waiting i li;
              nobody_off = idle.nobody_off;
              nobody_on = idle.nobody_on;
            };
            before = m1.b.e;
            before_ok = ok1.motion;
            same = s.control;
            moved = moved;
          })
        ]
      ],
    )
