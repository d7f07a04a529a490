-- ===== src/Elevator/Progress/Riding.antt =====
-- A passenger who is aboard, at each step of the thread and of the calls.
use native.Mathlib.Decide.{ℕ_discrete}
use mathlib.Core.Option.{some-injective}
use cop4610_project.Base.{
  ℕ, ◌+◌, ◌<◌, ◌≡◌, ◌≢◌, ◌⊎◌, inl, inr, refl, sym, ◌∙◌, subst, Bool, true, false, some, List, ◌∷◌,
  ◌++◌, ◌==◌, arith, All, All_middle, occurs, Bool-cases,
}
use cop4610_project.Elevator.Types.{offline, Passenger, Elevator, Building, Store}
use cop4610_project.Elevator.Thread.{first_section, second_section}
use cop4610_project.Elevator.Requests.{finish_request, start_elevator, stop_elevator}
use cop4610_project.Elevator.Invariant.{StoreOk}
use cop4610_project.Elevator.Invariant.Servicing.{service-Serviced}
use cop4610_project.Elevator.Invariant.Advancing.{advance-Advanced}
use cop4610_project.Elevator.Invariant.Arriving.{IsValid, arrived}
use cop4610_project.Elevator.Invariant.Requesting.{begin_request-Begun, finish_request-arrived}
use cop4610_project.Elevator.System.{Phase, System, Step, Steps}
use cop4610_project.Elevator.System.Safety.{SystemOk, pending_blocks, Begun-refused, Begun-taken}
use cop4610_project.Elevator.Progress.Sweep.{distance}
use cop4610_project.Elevator.Progress.Standstill.{on_duty_test}
use cop4610_project.Elevator.Progress.Delivery.{
  rides, distance-same, Serviced-Carried, Advanced-Nearer,
}

-- A passenger rides to floor `d`, `k` moves away, and the elevator is not about to leave that floor.
pub record Aboard (a d k : ℕ) (s : System) : Type 0 where
  pub on : 0 < rides a d s.store.b.e
  pub active : s.store.b.e.status ≢ offline
  pub way : distance d s.store.b.e ≡ k
  pub past : s.phase ≡ Phase.between → s.store.b.e.current ≢ d

-- What no call changes while the elevator is in service.
record SameRide (e e' : Elevator) : Type 0 where
  pub riders : e'.p ≡ e.p
  pub status : e'.status ≡ e.status
  pub current : e'.current ≡ e.current
  pub next : e'.next ≡ e.next
  pub direction : e'.direction ≡ e.direction

abbrev same_ride : (e : Elevator) → SameRide e e
same_ride e = record { riders = refl; status = refl; current = refl; next = refl; direction = refl }

SameRide-Aboard :
    (a d k : ℕ) (s t : System)
    → Aboard a d k s
    → t.phase ≡ s.phase
    → SameRide s.store.b.e t.store.b.e
    → Aboard a d k t
SameRide-Aboard a d k s t ab phase same = record {
  on = subst (λ (p : ℕ → List Passenger). 0 < occurs (λ q. q.node) a (p d)) (sym same.riders) ab.on;
  active = λ e. ab.active (sym same.status ∙ e);
  way = distance-same d s.store.b.e t.store.b.e same.current same.next same.direction ∙ ab.way;
  past = λ e at. ab.past (sym phase ∙ e) (sym same.current ∙ at);
}

start-SameRide :
    (acquired : Bool) (m : Store)
    → m.b.e.status ≢ offline
    → SameRide m.b.e (start_elevator acquired m).0.b.e
unfolding start_elevator
start-SameRide false m active = same_ride m.b.e
start-SameRide true m active = rw (on_duty_test m.b.e.status active) (same_ride m.b.e)

stop-SameRide : (acquired : Bool) (m : Store) → SameRide m.b.e (stop_elevator acquired m).0.b.e
unfolding stop_elevator
stop-SameRide false m = same_ride m.b.e
stop-SameRide true m = elim (Bool-cases (m.b.e.shutdown == 0)) [
  | inl going ↦
      rw going
        (record { riders = refl; status = refl; current = refl; next = refl; direction = refl })
  | inr shut ↦ rw shut (same_ride m.b.e)
]

enqueue-SameRide :
    (p : Passenger) (m m' : Store)
    → IsValid p
    → finish_request true p m ≡ some m'
    → SameRide m.b.e m'.b.e
enqueue-SameRide p m m' valid run =
    let same =
      some-injective (record m { b = arrived p m.b }) m'
        (sym (finish_request-arrived m p valid) ∙ run) in
    subst (λ (n : Store). SameRide m.b.e n.b.e) same (same_ride m.b.e)

-- One for a second section, which moves the elevator.
unfoldable pub counted : {signals : Bool} {s t : System} → Step signals s t → ℕ
counted (Step.second acquired at allowed) = 1
counted _ = 0

-- How many second sections a sequence of steps has.
unfoldable pub moves : {signals : Bool} {s t : System} → Steps signals s t → ℕ
unfolding counted
moves Steps.here = 0
moves (Steps.then_step r st) = moves r + counted st

-- After one step the passenger is off, or still aboard and as far nearer as the step moved.
abbrev Goes : (a d k n : ℕ) → System → Type 0
Goes a d k n t = (t.store.live a ≡ false) ⊎ ((k' : ℕ) × (k' + n ≡ k) × Aboard a d k' t)

module _ (a d k : ℕ) (floor : d < 10) where
  first-Goes :
      (leaked : ℕ → ℕ) (s : System) (m' : Store)
      → StoreOk leaked s.store
      → Aboard a d k s
      → first_section true s.store ≡ some m'
      → Goes a d k 0 (record s { store = m'; phase = Phase.between })
  unfolding first_section
  first-Goes leaked s m' ok ab run =
      let (m1, one, ok1, how) = service-Serviced s.store ok in
      let same : m1 ≡ m' = some-injective m1 m' (sym one ∙ run) in
      let c = Serviced-Carried a d ab.active ab.on how in
      subst (λ (n : Store). Goes a d k 0 (record s { store = n; phase = Phase.between })) same
        (elim (ℕ_discrete s.store.b.e.current d) [
          | yes here ↦ inl (c.here here)
          | no away ↦
              let kept = c.stays away in
              inr (
                k,
                omega arith,
                record {
                  on = omega (arith, kept, ab.on);
                  active = c.active;
                  way = c.way ∙ ab.way;
                  past = λ e at. away (sym c.current ∙ at);
                },
              )
        ])

  second-Goes :
      (leaked : ℕ → ℕ) (s : System)
      → StoreOk leaked s.store
      → Aboard a d k s
      → s.phase ≡ Phase.between
      → Goes a d k 1 (record s { store = second_section true s.store; phase = Phase.head })
  unfolding second_section
  second-Goes leaked s ok ab between =
      let (b', run, ok', how) = advance-Advanced s.store ok in
      let near =
        Advanced-Nearer a d ok.motion ok'.motion floor ab.active (ab.past between) ab.on how in
      subst
        (λ (b : Building).
          Goes a d k 1 (record s { store = record (s.store) { b = b }; phase = Phase.head }))
        (sym run)
        (inr (
          distance d b'.e,
          omega (arith, near.way, ab.way),
          record {
            on = omega (arith, near.stays, ab.on);
            active = near.active;
            way = refl;
            past = λ e. cc;
          },
        ))

  pub Step-Goes :
      {lost : ℕ → ℕ} {s t : System}
      → SystemOk lost s
      → Aboard a d k s
      → (st : Step false s t) → Goes a d k (counted st) t
  unfolding counted
  Step-Goes {lost} ok ab (Step.first {s} {m'} acquired at allowed run) =
      first-Goes (pending_blocks s lost) s m' ok.store ab
        (subst (λ v. first_section v s.store ≡ some m') (allowed refl) run)
  Step-Goes {lost} ok ab (Step.second {s} acquired at allowed) =
      subst (λ v. Goes a d k 1 (record s { store = second_section v s.store; phase = Phase.head }))
        (sym (allowed refl)) (second-Goes (pending_blocks s lost) s ok.store ab at)
  Step-Goes ok ab (Step.should_stop {s} at) =
      inr (k, omega arith, record { on = ab.on; active = ab.active; way = ab.way; past = λ e. cc })
  Step-Goes ok ab (Step.refuse {s} {m'} block x y z ints fresh run) =
      let same = Begun-refused (begin_request-Begun s.store block x y z ints) m' run in
      inr (
        k,
        omega arith,
        SameRide-Aboard a d k s (record s { store = m' }) ab refl
            (subst (λ (n : Store). SameRide s.store.b.e n.b.e) same (same_ride s.store.b.e)),
      )
  Step-Goes ok ab (Step.request {s} {m'} {p} block x y z ints fresh run) =
      let (node, got, new, who, range) =
        Begun-taken (begin_request-Begun s.store block x y z ints) m' p run in
      inr (
        k,
        omega arith,
        SameRide-Aboard a d k s (record s { store = m'; pending = p ∷ s.pending }) ab refl
            (subst (λ (n : Store). SameRide s.store.b.e n.b.e) (sym new) (same_ride s.store.b.e)),
      )
  Step-Goes ok ab (Step.enqueue {s} {m'} acquired before after p at allowed run) =
      let valid = (All_middle IsValid before p after (subst (All IsValid) at ok.pending)).0 in
      inr (
        k,
        omega arith,
        SameRide-Aboard a d k s (record s { store = m'; pending = before ++ after }) ab refl
            (enqueue-SameRide p s.store m' valid
              (subst (λ v. finish_request v p s.store ≡ some m') (allowed refl) run)),
      )
  Step-Goes ok ab (Step.start {s} acquired allowed) = inr (
    k,
    omega arith,
    SameRide-Aboard a d k s (record s { store = (start_elevator acquired s.store).0 }) ab refl
        (start-SameRide acquired s.store ab.active),
  )
  Step-Goes ok ab (Step.stop {s} acquired allowed) = inr (
    k,
    omega arith,
    SameRide-Aboard a d k s (record s { store = (stop_elevator acquired s.store).0 }) ab refl
        (stop-SameRide acquired s.store),
  )
