-- ===== src/Elevator/Progress/Interleaved.antt =====
-- Everybody who is aboard gets off, whatever calls come in between.
use cop4610_project.Base.{
  ℕ, zero, suc, ◌+◌, ◌≤◌, ◌<◌, ◌≡◌, ◌≢◌, ◌⊎◌, inl, inr, refl, Bool, true, false, some, arith,
  occurs,
}
use cop4610_project.Elevator.Types.{offline, Building, Store}
use cop4610_project.Elevator.Thread.{first_section, second_section}
use cop4610_project.Elevator.Invariant.{StoreOk}
use cop4610_project.Elevator.Invariant.Servicing.{service-Serviced}
use cop4610_project.Elevator.System.{Phase, System, Step, Reach, Steps}
use cop4610_project.Elevator.System.Safety.{Reach-SystemOk}
use cop4610_project.Elevator.Progress.Sweep.{distance, distance-le}
use cop4610_project.Elevator.Progress.Riding.{Aboard, counted, moves, Step-Goes}

Reach-Steps :
    {signals : Bool} {b : Building} {s t : System}
    → Reach signals b s
    → Steps signals s t
    → Reach signals b t
Reach-Steps r Steps.here = r
Reach-Steps r (Steps.then_step more st) = Reach.next (Reach-Steps r more) st

-- On the way from `s` to `t` there was a state in which the block at `a` was not allocated.
pub record Freed (a : ℕ) (s t : System) : Type 0 where
  pub state : System
  pub before : Steps false s state
  pub after : Steps false state t
  pub gone : state.store.live a ≡ false

Steps-Goes :
    (a d k : ℕ) (b : Building)
    → d < 10
    → {s t : System} (run : Steps false s t) → Reach false b s
    → Aboard a d k s
    → Freed a s t ⊎ ((k' : ℕ) × (k' + moves run ≡ k) × Aboard a d k' t)
unfolding moves
Steps-Goes a d k b floor Steps.here r ab = inr (k, omega arith, ab)
Steps-Goes a d k b floor (Steps.then_step run st) r ab = elim (Steps-Goes a d k b floor run r ab) [
  | inl freed ↦ inl (record {
    state = freed.state;
    before = freed.before;
    after = Steps.then_step freed.after st;
    gone = freed.gone;
  })
  | inr (k1, left, ab1) ↦
      let (lost, none_lost, ok) = Reach-SystemOk (Reach-Steps r run) in
      elim (Step-Goes a d k1 floor ok ab1 st) [
        | inl gone ↦
            inl (record {
              state = _;
              before = Steps.then_step run st;
              after = Steps.here;
              gone = gone;
            })
        | inr (k2, nearer, ab2) ↦ inr (k2, omega (arith, left, nearer), ab2)
      ]
]

first_section-some :
    {leaked : ℕ → ℕ} (m : Store)
    → StoreOk leaked m
    → (m' : Store) × (first_section true m ≡ some m')
unfolding first_section
first_section-some m ok = let (m', run, ok', how) = service-Serviced m ok in (m', run)

-- The thread can always go on: from a reachable state between its sections, by `n` second sections.
pub goes_on :
    (n : ℕ) {b : Building} {s : System}
    → Reach false b s
    → s.phase ≡ Phase.between
    → (t : System) × (run : Steps false s t) × (moves run ≡ n) × (t.phase ≡ Phase.between)
unfolding moves counted
goes_on zero {s = s} r at = (s, Steps.here, refl, at)
goes_on (suc n) r at =
    let (t, run, count, between) = goes_on n r at in
    let up_to = Reach-Steps r run in
    let moved = Step.second {s = t} true between (λ h. refl) in
    let (lost, none_lost, ok) = Reach-SystemOk (Reach.next up_to moved) in
    let (m', served) = first_section-some (second_section true t.store) ok.store in
    (
      _,
      Steps.then_step (Steps.then_step run moved) (Step.first true refl (λ h. refl) served),
      omega (arith, count),
      refl,
    )

-- Where no lock is interrupted, a passenger who is aboard an elevator in service is let off, and the
-- block is freed, before the thread has gone through 18 more second sections, whatever starts, stops
-- and requests of other processes come in between, and wherever they do. At the beginning the elevator
-- is not between its sections on the floor to which the passenger goes.
pub delivered_in_time :
    (a d : ℕ) (b : Building) {s t : System}
    → Reach false b s
    → (s.phase ≢ Phase.between) ⊎ (s.store.b.e.current ≢ d)
    → d < 10
    → s.store.b.e.status ≢ offline
    → 0 < occurs (λ q. q.node) a (s.store.b.e.p d)
    → (run : Steps false s t) → 18 ≤ moves run
    → Freed a s t
delivered_in_time a d b {s} {t} r coming floor active on run long =
    let (lost, none_lost, ok) = Reach-SystemOk r in
    let short = distance-le d s.store.b.e ok.store.motion floor in
    let start : Aboard a d (distance d s.store.b.e) s = record {
      on = on;
      active = active;
      way = refl;
      past = λ e. elim coming [ inl ne ↦ absurd (ne e) | inr away ↦ away ];
    } in
    elim (Steps-Goes a d (distance d s.store.b.e) b floor run r start) [
      | inl freed ↦ freed
      | inr (k, left, ab) ↦ absurd (omega (arith, left, short, long))
    ]
