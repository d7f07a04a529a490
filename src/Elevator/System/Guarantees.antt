-- ===== src/Elevator/System/Guarantees.antt =====
-- What the invariant gives in every state that the module can reach.
use cop4610_project.Base.{
  ℕ, ◌+◌, ◌%◌, ◌^◌, ◌≤◌, ◌<◌, ◌≡◌, ◌≢◌, refl, ap, sym, subst, Bool, true, false, if◌then◌else◌,
  some, List, [], ◌∷◌, ◌++◌, arith, All, All_middle, occurs, tally,
}
use cop4610_project.Elevator.Types.{Passenger, Elevator, Floors, Building, Store}
use cop4610_project.Elevator.Thread.{first_section}
use cop4610_project.Elevator.Requests.{finish_request}
use cop4610_project.Elevator.Invariant.{
  BlocksOk, WaitsAt, RidesTo, weight, size, is_adult, is_child, is_room, is_bell, aboard, placed,
}
use cop4610_project.Elevator.Invariant.Servicing.{service-Serviced}
use cop4610_project.Elevator.Invariant.Arriving.{IsValid}
use cop4610_project.Elevator.Invariant.Requesting.{
  finish_request-arrived, finish_request-interrupted,
}
use cop4610_project.Elevator.Exit.{free_passengers}
use cop4610_project.Elevator.Exit.Freeing.{free_passengers-frees}
use cop4610_project.Elevator.System.{System, Reach}
use cop4610_project.Elevator.System.Safety.{Reach-SystemOk}

-- In every reachable state the critical section that unloads and loads ends without a fault, whether
-- its lock is taken or interrupted: no index leaves the arrays, no node is used that was freed.
pub first_section-no_fault :
    {signals : Bool} {b : Building} {s : System}
    → Reach signals b s
    → (acquired : Bool) → (m' : Store) × (first_section acquired s.store ≡ some m')
unfolding first_section
first_section-no_fault {s} r false = (s.store, refl)
first_section-no_fault {s} r true =
    let ok = ((Reach-SystemOk r).2).store in
    let (m', run, kept, how) = service-Serviced s.store ok in (m', run)

-- In every reachable state a call of issue_request that waits for the lock ends without a fault.
pub finish_request-no_fault :
    {signals : Bool} {b : Building} {s : System}
    → Reach signals b s
    → (acquired : Bool) (before after : List Passenger) (p : Passenger)
    → s.pending ≡ before ++ p ∷ after
    → (m' : Store) × (finish_request acquired p s.store ≡ some m')
finish_request-no_fault {s} r false before after p at =
    (s.store, finish_request-interrupted s.store p)
finish_request-no_fault {s} r true before after p at =
    let pending = ((Reach-SystemOk r).2).pending in
    let valid = (All_middle IsValid before p after (subst (All IsValid) at pending)).0 in
    (_, finish_request-arrived s.store p valid)

-- The load of the elevator is within the limits MAX_W and MAX_P, everybody aboard is in the list of
-- the own destination, and the six counters are the sums and numbers of those aboard.
abbrev pub LoadIsSafe : Elevator → Type 0
LoadIsSafe e =
    (aboard weight e.p ≤ 30)
    × (aboard size e.p ≤ 10)
    × ((i : ℕ) → i < 10 → All (RidesTo i) (e.p i))
    × (e.w_units ≡ aboard weight e.p)
    × (e.p_units ≡ aboard size e.p)
    × (e.adults ≡ aboard is_adult e.p)
    × (e.children ≡ aboard is_child e.p)
    × (e.rooms ≡ aboard is_room e.p)
    × (e.bells ≡ aboard is_bell e.p)

-- In every reachable state the passengers on the elevator weigh at most MAX_W and take at most MAX_P
-- places, each is in the list of its own destination, and the elevator's six counters are exactly
-- the sums and numbers of the passengers in its ten lists.
pub load_within_limits :
    {signals : Bool} {b : Building} {s : System} → Reach signals b s → LoadIsSafe s.store.b.e
load_within_limits r =
    let ok = ((Reach-SystemOk r).2).store.elevator in
    (
      omega arith,
      omega arith,
      ok.queues,
      ok.w_units,
      ok.p_units,
      ok.adults,
      ok.children,
      ok.rooms,
      ok.bells,
    )

-- Everybody in the queue of floor `i` started there, and the counters of the floor are the sums and
-- numbers of its queue, modulo 2 ^ 32.
abbrev pub QueueIsCounted : ℕ → Floors → Type 0
QueueIsCounted i fl =
    All (WaitsAt i) fl.waiting
    × (fl.w_units ≡ tally weight fl.waiting % 2 ^ 32)
    × (fl.p_units ≡ tally size fl.waiting % 2 ^ 32)
    × (fl.adults ≡ tally is_adult fl.waiting % 2 ^ 32)
    × (fl.children ≡ tally is_child fl.waiting % 2 ^ 32)
    × (fl.rooms ≡ tally is_room fl.waiting % 2 ^ 32)
    × (fl.bells ≡ tally is_bell fl.waiting % 2 ^ 32)

-- In every reachable state everybody in the queue of a floor started there, and the six counters of
-- the floor are the sums and numbers of its queue, modulo 2 ^ 32.
pub floor_counters :
    {signals : Bool} {b : Building} {s : System}
    → Reach signals b s
    → (i : ℕ) → i < 10
    → QueueIsCounted i (s.store.b.f i)
floor_counters r i li =
    let ok = ((Reach-SystemOk r).2).store.floors i li in
    (ok.queue, ok.w_units, ok.p_units, ok.adults, ok.children, ok.rooms, ok.bells)

-- Where no lock is interrupted, in every reachable state a passenger block is allocated if and only
-- if its node stands exactly once in the lists of the building or belongs to one call that waits for
-- the lock: no block leaks, none is freed while it is in use, and none is on two lists.
pub blocks_accounted :
    {b : Building} {s : System}
    → Reach false b s
    → (a : ℕ)
    → placed a s.store.b + occurs (λ q. q.node) a s.pending ≡ (if s.store.live a then 1 else 0)
blocks_accounted {s} r a =
    let (lost, none_lost, ok) = Reach-SystemOk r in
    let nothing : lost a ≡ 0 = subst (λ (l : ℕ → ℕ). l a ≡ 0) (sym (none_lost refl)) refl in
    omega (arith, ok.store.blocks a)

-- The elevator stands on a floor of the building and announces a neighbour, upwards if it goes up.
abbrev pub PositionIsValid : Elevator → Type 0
PositionIsValid e =
    (e.current < 10)
    × (e.next < 10)
    × (e.next ≢ e.current)
    × (e.next ≤ e.current + 1)
    × (e.current ≤ e.next + 1)
    × (e.direction ≡ 1 → e.next ≡ e.current + 1)

-- In every reachable state the elevator stands on a floor of the building and announces one of its
-- neighbours, the upper one if it is going up.
pub position_valid :
    {signals : Bool} {b : Building} {s : System} → Reach signals b s → PositionIsValid s.store.b.e
position_valid r = let ok = ((Reach-SystemOk r).2).store.motion in ground arith

-- Where no lock is interrupted and no call waits for it, every allocated block stands in one list.
pub idle-BlocksOk :
    {b : Building} {s : System} → Reach false b s → s.pending ≡ [] → BlocksOk (λ a. 0) s.store
unfolding occurs
idle-BlocksOk {s} r idle a =
    let (lost, none_lost, ok) = Reach-SystemOk r in
    let nothing : lost a ≡ 0 = subst (λ (l : ℕ → ℕ). l a ≡ 0) (sym (none_lost refl)) refl in
    ground (arith, ok.store.blocks a, ap (occurs (λ (q : Passenger). q.node) a) idle)

-- Where no lock is interrupted, in every reachable state with no call waiting for the lock,
-- elevator_exit ends without a fault, leaves no passenger in any list, and no block allocated.
pub exit_frees_all :
    {b : Building} {s : System}
    → Reach false b s
    → s.pending ≡ []
    → (m' : Store) × (free_passengers s.store ≡ some m')
      × ((a : ℕ) → m'.live a ≡ false)
      × ((i : ℕ) → i < 10 → ((m'.b.f i).waiting ≡ []) × (m'.b.e.p i ≡ []))
exit_frees_all {s} r idle =
    let (m', run, left, empty) = free_passengers-frees (λ a. 0) s.store (idle-BlocksOk r idle) in
    (m', run, λ a. ground (arith, left a), empty)
