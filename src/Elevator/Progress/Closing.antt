-- ===== src/Elevator/Progress/Closing.antt =====
-- One round of runElevator of part3/elevator/elevator.c after stop_elevator.
use native.Mathlib.Decide.{ℕ_discrete}
use cop4610_project.Base.{
  ℕ, suc, ◌<◌, ◌≡◌, ◌≢◌, ◌⊎◌, inl, inr, refl, ap, sym, ◌∙◌, subst, List, [], arith,
}
use cop4610_project.Elevator.Types.{idle, offline, Passenger, Elevator, Building, Store}
use cop4610_project.Elevator.Invariant.{MotionOk, StoreOk}
use cop4610_project.Elevator.Invariant.Servicing.{Serviced, asleep, vacant, served}
use cop4610_project.Elevator.Invariant.Advancing.{
  NobodyWaits, NobodyRides, SomebodyWaits, SomebodyRides, Moved, Advanced,
}
use cop4610_project.Elevator.Progress.Sweep.{distance, distance-Moved}
use cop4610_project.Elevator.Progress.Delivery.{distance-same}

-- Every floor that somebody rides to comes within `n` moves.
abbrev pub Reached : ℕ → Elevator → Type 0
Reached n e = (d : ℕ) → d < 10 → (e.p d ≡ []) ⊎ (distance d e < n)

-- The queues of the floors are left alone.
abbrev pub SameQueues : Building → Building → Type 0
SameQueues b b' = (i : ℕ) → (b'.f i).waiting ≡ (b.f i).waiting

-- An elevator in service that was asked to shut down.
pub record Stopping (leaked : ℕ → ℕ) (m : Store) : Type 0 where
  pub ok : StoreOk leaked m
  pub shut : m.b.e.shutdown ≡ 1
  pub active : m.b.e.status ≢ offline

-- What the first section does then: it lets everybody off at the floor, and nobody in.
pub record LetOff (m m' : Store) : Type 0 where
  pub shut : m'.b.e.shutdown ≡ 1
  pub active : m'.b.e.status ≢ offline
  pub emptied : m'.b.e.p m.b.e.current ≡ []
  pub others : (i : ℕ) → i ≢ m.b.e.current → m'.b.e.p i ≡ m.b.e.p i
  pub same : SameQueues m.b m'.b
  pub control :
      (m'.b.e.current ≡ m.b.e.current)
      × (m'.b.e.next ≡ m.b.e.next)
      × (m'.b.e.direction ≡ m.b.e.direction)

pub Serviced-LetOff :
    {leaked : ℕ → ℕ} {m m' : Store} → Stopping leaked m → Serviced m m' → LetOff m m'
Serviced-LetOff s (asleep off) = absurd (s.active off)
Serviced-LetOff s (vacant duty none empty) = record {
  shut = s.shut;
  active = s.active;
  emptied = empty;
  others = λ i ne. refl;
  same = λ i. refl;
  control = (refl, refl, refl);
}
Serviced-LetOff {m = m} s (served duty some_one fs) =
    let off = fs.off.control in
    subst (LetOff m) (sym (fs.closed s.shut)) (record {
      shut = off.shutdown ∙ s.shut;
      active = λ e. cc (e, off.status);
      emptied = fs.off.emptied;
      others = fs.off.others;
      same = fs.off.waiting;
      control = (off.current, off.next, off.direction);
    })

-- The elevator rests or is closed, and nobody is aboard.
pub record Stopped (b : Building) (b' : Building) : Type 0 where
  pub empty : NobodyRides b'.e
  pub same : SameQueues b b'
  pub how : ((b'.e.status ≡ offline) × SomebodyWaits b) ⊎ ((b'.e.status ≡ idle) × NobodyWaits b)

-- What the second section does then.
abbrev pub Next : (leaked : ℕ → ℕ) (n : ℕ) → Building → Store → Type 0
Next leaked n b m =
    Stopped b m.b ⊎ (Stopping leaked m × SomebodyRides m.b.e × Reached n m.b.e × SameQueues b m.b)

move_on :
    (n : ℕ) (m m1 : Store) (e' : Elevator)
    → MotionOk m1.b.e
    → MotionOk e'
    → LetOff m m1
    → Reached (suc n) m.b.e
    → Moved m1.b.e e'
    → Reached n e'
move_on n m m1 e' ok ok' l near moved d floor = elim (ℕ_discrete d m.b.e.current) [
  | yes here ↦ inl (
      ap (λ (p : ℕ → List Passenger). p d) moved.riders
      ∙ subst (λ k. m1.b.e.p k ≡ []) (sym here) l.emptied)
  | no away ↦ elim (near d floor) [
    | inl nobody ↦
        inl (ap (λ (p : ℕ → List Passenger). p d) moved.riders ∙ l.others d away ∙ nobody)
    | inr soon ↦
        let same = distance-same d m.b.e m1.b.e l.control.0 l.control.1 l.control.2 in
        let nearer =
          distance-Moved d m1.b.e ok floor e' moved ok' (λ e. away (sym e ∙ l.control.0)) in
        inr (omega (arith, soon, same, nearer))
  ]
]

pub queues-same : (b b' : Building) → SameQueues b b' → NobodyWaits b' → NobodyWaits b
queues-same b b' same nobody i li = sym (same i) ∙ nobody i li

pub somebody-same : (b b' : Building) → SameQueues b b' → SomebodyWaits b' → SomebodyWaits b
somebody-same b b' same (i, li, ne) = (i, li, λ e. ne (same i ∙ e))

pub Advanced-Next :
    {leaked : ℕ → ℕ} (n : ℕ) (m m1 : Store) {b' : Building}
    → StoreOk leaked m1
    → StoreOk leaked (record m1 { b = b' })
    → LetOff m m1
    → Reached (suc n) m.b.e
    → Advanced m1.b b'
    → Next leaked n m.b (record m1 { b = b' })
Advanced-Next n m m1 ok ok' l near (Advanced.asleep off) = absurd (l.active off)
Advanced-Next n m m1 ok ok' l near (Advanced.resting duty nobody quiet) =
    inl (record {
      empty = nobody;
      same = l.same;
      how = inr (refl, queues-same m.b m1.b l.same quiet);
    })
Advanced-Next n m m1 ok ok' l near (Advanced.closing duty nobody waits shut) = inl (record {
  empty = nobody;
  same = l.same;
  how = inl (refl, somebody-same m.b m1.b l.same waits);
})
Advanced-Next n m m1 ok ok' l near (Advanced.moving {e'} duty (inr (waits, going)) moved) =
    absurd (omega (arith, going, l.shut))
Advanced-Next n m m1 ok ok' l near (Advanced.moving {e'} duty (inl (i, li, rides)) moved) = inr (
  record { ok = ok'; shut = moved.shutdown ∙ l.shut; active = λ e. ground (arith, moved.shown) },
  (i, li, λ e. rides (ap (λ (p : ℕ → List Passenger). p i) (sym moved.riders) ∙ e)),
  move_on n m m1 e' ok.motion ok'.motion l near moved,
  l.same,
)
