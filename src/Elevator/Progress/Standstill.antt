-- ===== src/Elevator/Progress/Standstill.antt =====
-- A standstill: a shutdown that is asked for while nobody is in the building.
use cop4610_project.Base.{
  ℕ, ◌<◌, ◌≡◌, ◌≢◌, inl, inr, refl, ap, sym, ◌∙◌, subst, Bool, true, false, ◌||◌, Bool-cases,
  if◌then◌else◌, Option, none, some, List, [], ◌∷◌, ◌++◌, arith,
}
use mathlib.Core.Option.{some-injective}
use cop4610_project.Elevator.Types.{State, idle, offline, Passenger, Store}
use cop4610_project.Elevator.Thread.{service, advance, first_section, second_section, is_offline}
use cop4610_project.Elevator.Requests.{
  begin_request, start_elevator, stop_elevator, issue_request, refused, out_of_range,
}
use cop4610_project.Elevator.Invariant.Advancing.{
  NobodyWaits, NobodyRides, check_building-decides, check_elevator-decides,
}
use cop4610_project.Elevator.Invariant.Requesting.{begin_request-refused}
use cop4610_project.Elevator.Invariant.Servicing.{service-vacant}
use cop4610_project.Elevator.Invariant.Control.{offline_of_test}
use cop4610_project.Elevator.System.{Phase, System, Step, Steps}

-- A shutdown was asked for, and nobody is left, but the elevator is not offline.
pub record Stuck (s : System) : Type 0 where
  pub shutdown : s.store.b.e.shutdown ≡ 1
  pub active : s.store.b.e.status ≢ offline
  pub floor : s.store.b.e.current < 10
  pub riders : NobodyRides s.store.b.e
  pub queues : NobodyWaits s.store.b
  pub pending : s.pending ≡ []

pub on_duty_test : (s : State) → s ≢ offline → is_offline s ≡ false
on_duty_test s h = elim (Bool-cases (is_offline s)) [
  | inl e ↦ absurd (h (offline_of_test s e))
  | inr e ↦ e
]

shutdown-refused : (t s d : ℕ) (m : Store) → m.b.e.shutdown ≡ 1 → refused m t s d ≡ true
shutdown-refused t s d m h = rw h (last (out_of_range t 4) (out_of_range s 10) (out_of_range d 10))
  where
    last : (x y z : Bool) → (x || y || z || true) ≡ true
    last x y z = ground arith

module _ (s : System) (stuck : Stuck s) where
  abbrev m : Store
  m = s.store

  stuck-service : service m ≡ some m
  stuck-service =
      service-vacant m (on_duty_test m.b.e.status stuck.active) stuck.floor
        (rw (stuck.queues m.b.e.current stuck.floor, stuck.riders m.b.e.current stuck.floor))

  stuck-advance : advance m.b ≡ record (m.b) { e = record (m.b.e) { status = idle } }
  unfolding advance
  stuck-advance = elim (check_elevator-decides m.b.e) [
    | inl (rides, (i, li, ne)) ↦ absurd (ne (stuck.riders i li))
    | inr (empty, none_rides) ↦ elim (check_building-decides m.b) [
      | inl (waits, (i, li, ne)) ↦ absurd (ne (stuck.queues i li))
      | inr (quiet, none_waits) ↦ rw (on_duty_test m.b.e.status stuck.active, empty, quiet)
    ]
  ]

  stuck-begin_request :
      (block : Option ℕ) (t f d : ℕ) → begin_request block t f d m ≡ some (m, none)
  stuck-begin_request block t f d =
      begin_request-refused m block t f d (shutdown-refused t f d m stuck.shutdown)

  -- Every request, every start and every stop changes nothing, and is answered by 1, or by 0 where the
  -- lock of a start or a stop is interrupted.
  calls_fail :
      ((acquired : Bool) (block : Option ℕ) (t f d : ℕ)
        → issue_request acquired block t f d m ≡ some (m, 1))
      × ((acquired : Bool) → start_elevator acquired m ≡ (m, if acquired then 1 else 0))
      × ((acquired : Bool) → stop_elevator acquired m ≡ (m, if acquired then 1 else 0))
  unfolding issue_request start_elevator stop_elevator
  calls_fail = (
    λ acquired block t f d. rw (stuck-begin_request block t f d),
    λ acquired. elim (Bool-cases acquired) [
      | inl e ↦ rw (e, on_duty_test m.b.e.status stuck.active)
      | inr e ↦ rw e
    ],
    λ acquired. elim (Bool-cases acquired) [ inl e ↦ rw (e, stuck.shutdown) | inr e ↦ rw e ],
  )

first_section-same :
    (s : System)
    → Stuck s
    → (acquired : Bool) (m' : Store) → first_section acquired s.store ≡ some m'
    → s.store ≡ m'
unfolding first_section
first_section-same s stuck false m' e = some-injective s.store m' e
first_section-same s stuck true m' e = some-injective s.store m' (sym (stuck-service s stuck) ∙ e)

not_pending : (before after : List Passenger) (p : Passenger) → [] ≢ before ++ p ∷ after
not_pending [] after p e = cc
not_pending (q ∷ before) after p e = cc

-- The same store, at any point of the thread.
same_store :
    {s : System}
    → Stuck s
    → (phase : Phase) (m' : Store) → s.store ≡ m'
    → Stuck (record s { store = m'; phase = phase })
same_store {s} stuck phase m' e =
    subst (λ m. Stuck (record s { store = m; phase = phase })) e
      (record {
        shutdown = stuck.shutdown;
        active = stuck.active;
        floor = stuck.floor;
        riders = stuck.riders;
        queues = stuck.queues;
        pending = stuck.pending;
      })

second_section-Stuck :
    (s : System)
    → Stuck s
    → (acquired : Bool)
    → Stuck (record s { store = second_section acquired s.store; phase = Phase.head })
unfolding second_section
second_section-Stuck s stuck false = same_store stuck Phase.head s.store refl
second_section-Stuck s stuck true =
    subst (λ b. Stuck (record s { store = record (s.store) { b = b }; phase = Phase.head }))
      (sym (stuck-advance s stuck))
      (record {
        shutdown = stuck.shutdown;
        active = λ e. cc;
        floor = stuck.floor;
        riders = stuck.riders;
        queues = stuck.queues;
        pending = stuck.pending;
      })

start_elevator-same :
    (s : System) → Stuck s → (acquired : Bool) → s.store ≡ (start_elevator acquired s.store).0
unfolding start_elevator
start_elevator-same s stuck false = refl
start_elevator-same s stuck true = rw (on_duty_test s.store.b.e.status stuck.active)

stop_elevator-same :
    (s : System) → Stuck s → (acquired : Bool) → s.store ≡ (stop_elevator acquired s.store).0
unfolding stop_elevator
stop_elevator-same s stuck false = refl
stop_elevator-same s stuck true = rw stuck.shutdown

-- Whatever happens, the module stays stuck: no step of the thread and no system call leads out.
Step-Stuck : {signals : Bool} {s t : System} → Stuck s → Step signals s t → Stuck t
Step-Stuck stuck (Step.first {s} {m'} acquired at allowed run) =
    same_store stuck Phase.between m' (first_section-same s stuck acquired m' run)
Step-Stuck stuck (Step.second {s} acquired at allowed) = second_section-Stuck s stuck acquired
Step-Stuck stuck (Step.should_stop {s} at) = same_store stuck Phase.returned s.store refl
Step-Stuck stuck (Step.refuse {s} {m'} block t f d ints fresh run) = same_store stuck s.phase m' (
    ap (λ (r : Store × Option Passenger). r.0)
      (some-injective (s.store, none) (m', none)
        (sym (stuck-begin_request s stuck block t f d) ∙ run)))
Step-Stuck stuck (Step.request {s} {m'} {p} block t f d ints fresh run) =
    absurd (ground (arith, stuck-begin_request s stuck block t f d))
Step-Stuck stuck (Step.enqueue {s} {m'} acquired before after p at allowed run) =
    absurd (not_pending before after p (sym stuck.pending ∙ at))
Step-Stuck stuck (Step.start {s} acquired allowed) =
    same_store stuck s.phase (start_elevator acquired s.store).0
      (start_elevator-same s stuck acquired)
Step-Stuck stuck (Step.stop {s} acquired allowed) =
    same_store stuck s.phase (stop_elevator acquired s.store).0
      (stop_elevator-same s stuck acquired)

-- stop_elevator on an elevator in service with nobody in the building leads there.
stop_elevator-Stuck :
    (s : System)
    → s.store.b.e.shutdown ≡ 0
    → s.store.b.e.status ≢ offline
    → s.store.b.e.current < 10
    → NobodyRides s.store.b.e
    → NobodyWaits s.store.b
    → s.pending ≡ []
    → Stuck (record s { store = (stop_elevator true s.store).0 })
unfolding stop_elevator
stop_elevator-Stuck s going active floor riders queues pending = rw going (record {
  shutdown = refl;
  active = active;
  floor = floor;
  riders = riders;
  queues = queues;
  pending = pending;
})

Steps-Stuck : {signals : Bool} {s t : System} → Stuck s → Steps signals s t → Stuck t
Steps-Stuck stuck Steps.here = stuck
Steps-Stuck stuck (Steps.then_step r st) = Step-Stuck (Steps-Stuck stuck r) st

-- After stop_elevator on an elevator in service with nobody in the building, and no call waiting for
-- the lock, the elevator never goes offline: in every state that may follow, start_elevator and
-- stop_elevator return 1, or 0 if their lock is interrupted, every request is turned down with 1, and
-- none of the three changes anything.
pub stop_is_final :
    {signals : Bool} (s t : System)
    → s.store.b.e.shutdown ≡ 0
    → s.store.b.e.status ≢ offline
    → s.store.b.e.current < 10
    → NobodyRides s.store.b.e
    → NobodyWaits s.store.b
    → s.pending ≡ []
    → Steps signals (record s { store = (stop_elevator true s.store).0 }) t
    → (t.store.b.e.status ≢ offline)
      × ((acquired : Bool) → start_elevator acquired t.store ≡ (t.store, if acquired then 1 else 0))
      × ((acquired : Bool) → stop_elevator acquired t.store ≡ (t.store, if acquired then 1 else 0))
      × ((acquired : Bool) (block : Option ℕ) (p_type s_floor d_floor : ℕ)
          → issue_request acquired block p_type s_floor d_floor t.store ≡ some (t.store, 1))
stop_is_final s t going active floor riders queues pending r =
    let stuck = Steps-Stuck (stop_elevator-Stuck s going active floor riders queues pending) r in
    let (requests, starts, stops) = calls_fail t stuck in (stuck.active, starts, stops, requests)
