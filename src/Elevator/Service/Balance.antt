-- ===== src/Elevator/Service/Balance.antt =====
-- The account of a run of the module: the requests accepted, and the passengers brought and forgotten.
use mathlib.Core.Option.{some-injective}
use cop4610_project.Base.{
  ℕ, ◌+◌, ◌%◌, ◌^◌, ◌<◌, ◌≡◌, refl, ap, sym, ◌∙◌, subst, Bool, true, false, arith, if◌then◌else◌,
  some, List, [], ◌∷◌, ◌++◌, All, All_middle, tally, tally-cons, tally-append, sum_below,
  sum_below_add, ◌⊎◌, inl, inr,
}
use cop4610_project.Elevator.Types.{Passenger, Building, Store}
use cop4610_project.Elevator.Building.{init_elevator, init_building}
use cop4610_project.Elevator.System.Start.{
  init_lists-empty, init_floors-Fresh, tally-nil, sum_below_zero,
}
use cop4610_project.Elevator.Thread.{is_offline, first_section}
use cop4610_project.Elevator.Requests.{finish_request}
use cop4610_project.Elevator.Invariant.{aboard, StoreOk}
use cop4610_project.Elevator.Invariant.Unloading.{from}
use cop4610_project.Elevator.Invariant.Servicing.{service-Serviced}
use cop4610_project.Elevator.Invariant.Arriving.{IsValid}
use cop4610_project.Elevator.Invariant.Requesting.{
  finish_request-arrived, finish_request-interrupted, begin_request-Begun,
}
use cop4610_project.Elevator.System.{Phase, System, Step, Allowed, Reach, initial}
use cop4610_project.Elevator.System.Safety.{Begun-refused, Begun-taken, SystemOk, Reach-SystemOk}
use cop4610_project.Elevator.Service.Measures.{queued, sum_below_zeros}
use cop4610_project.Elevator.Service.Calls.{interrupted_means}
use cop4610_project.Elevator.Service.Showing.{arrived-queued, arrived-serviced}
use cop4610_project.Elevator.Service.Brought.{
  one, people, Brings, leaving, unchanged-Brings, Serviced-Brings, start-Brings, stop-Brings,
  second-Brings,
}

-- The requests that a step takes, and those that it forgets.
unfoldable pub accepts : {signals : Bool} {s t : System} → Step signals s t → ℕ
accepts (Step.request block p_type s_floor d_floor ints fresh run) = 1
accepts _ = 0

unfoldable pub forgets : {signals : Bool} {s t : System} → Step signals s t → ℕ
forgets (Step.enqueue false before after p at allowed run) = 1
forgets _ = 0

-- How many from floor `i` a step brings: those aboard who ride to the floor at which an elevator in
-- service takes the lock for its first section.
unfoldable pub brings : {signals : Bool} {s t : System} → Step signals s t → ℕ → ℕ
brings (Step.first {s} true at allowed run) i =
    if is_offline s.store.b.e.status then 0 else tally (from i) (s.store.b.e.p s.store.b.e.current)
brings _ i = 0

-- The same, over a run.
unfoldable pub accepted : {signals : Bool} {b : Building} {s : System} → Reach signals b s → ℕ
accepted Reach.begin = 0
accepted (Reach.next r step) = accepted r + accepts step

unfoldable pub forgotten : {signals : Bool} {b : Building} {s : System} → Reach signals b s → ℕ
forgotten Reach.begin = 0
forgotten (Reach.next r step) = forgotten r + forgets step

unfoldable pub brought : {signals : Bool} {b : Building} {s : System} → Reach signals b s → ℕ → ℕ
brought Reach.begin i = 0
brought (Reach.next r step) i = brought r i + brings step i

-- A step that takes `taken` requests and forgets `out` others, and brings `off`.
record Balanced (signals : Bool) (s t : System) (taken out : ℕ) (off : ℕ → ℕ) : Type 0 where
  people :
      tally one t.pending + people t.store.b + sum_below 10 off + out
      ≡ tally one s.pending + people s.store.b + taken
  serviced :
      (i : ℕ) → i < 10 → (t.store.b.f i).serviced ≡ ((s.store.b.f i).serviced + off i) % 2 ^ 32
  forgotten : (signals ≡ true) ⊎ (out ≡ 0)

Brings-Balanced :
    {signals : Bool} (s t : System) (off : ℕ → ℕ)
    → t.pending ≡ s.pending
    → Brings s.store t.store off
    → Balanced signals s t 0 0 off
Brings-Balanced s t off same moved = record {
  people = omega (arith, moved.people, ap (tally one) same);
  serviced = moved.serviced;
  forgotten = inr refl;
}

first-Balanced :
    {signals : Bool} {leaked : ℕ → ℕ} (acquired : Bool) (s : System) (m' : Store)
    → StoreOk leaked s.store
    → (at : s.phase ≡ Phase.head) (allowed : Allowed signals acquired)
      (run : first_section acquired s.store ≡ some m')
    → Balanced signals s
        (record s { store = m'; phase = Phase.between })
        0
        0
        (brings {signals = signals} (Step.first {s = s} {m' = m'} acquired at allowed run))
unfolding first_section brings
first-Balanced false s m' ok at allowed run =
    Brings-Balanced s _ (λ i. 0) refl
      (subst (λ m. Brings s.store m (λ i. 0)) (some-injective s.store m' run)
        (unchanged-Brings s.store ok))
first-Balanced true s m' ok at allowed run =
    let (n, run', ok', what) = service-Serviced s.store ok in
    Brings-Balanced s _ (leaving s.store) refl (
      subst (λ m. Brings s.store m (leaving s.store)) (some-injective n m' (sym run' ∙ run))
        (Serviced-Brings ok what))

-- One of the pending passengers, apart.
one_pending :
    (pending before after : List Passenger) (p : Passenger)
    → pending ≡ before ++ p ∷ after
    → tally one pending ≡ tally one (before ++ after) + 1
one_pending pending before after p at = omega (
  arith,
  ap (tally one) at,
  tally-append one before (p ∷ after),
  tally-append one before after,
  tally-cons one p after,
)

enqueue-Balanced :
    {signals : Bool} {leaked : ℕ → ℕ} (acquired : Bool) (s : System) (m' : Store)
    (before after : List Passenger) (p : Passenger)
    → StoreOk leaked s.store
    → IsValid p
    → (at : s.pending ≡ before ++ p ∷ after) (allowed : Allowed signals acquired)
      (run : finish_request acquired p s.store ≡ some m')
    → Balanced signals s
        (record s { store = m'; pending = before ++ after })
        0
        (forgets {signals = signals}
          (Step.enqueue {s = s} {m' = m'} acquired before after p at allowed run))
        (λ i. 0)
unfolding forgets
enqueue-Balanced {signals} true s m' before after p ok valid at allowed run =
    let same = some-injective _ m' (sym (finish_request-arrived s.store p valid) ∙ run) in
    subst (λ m. Balanced signals s (record s { store = m; pending = before ++ after }) 0 0 (λ i. 0))
      same
      (record {
        people = omega (
          arith,
          one_pending s.pending before after p at,
          arrived-queued one p s.store.b valid.start,
          sum_below_zeros 10,
        );
        serviced = λ i li. omega (arith, arrived-serviced p s.store.b i, (ok.floors i li).serviced);
        forgotten = inr refl;
      })
enqueue-Balanced {signals} false s m' before after p ok valid at allowed run =
    let same = some-injective s.store m' (sym (finish_request-interrupted s.store p) ∙ run) in
    let still = unchanged-Brings s.store ok in
    subst (λ m. Balanced signals s (record s { store = m; pending = before ++ after }) 0 1 (λ i. 0))
      same
      (record {
        people = omega (arith, one_pending s.pending before after p at, sum_below_zeros 10);
        serviced = still.serviced;
        forgotten = inl (interrupted_means signals allowed);
      })

Step-Balanced :
    {signals : Bool} {lost : ℕ → ℕ} {s t : System}
    → SystemOk lost s
    → (step : Step signals s t) → Balanced signals s t (accepts step) (forgets step) (brings step)
unfolding accepts forgets brings
Step-Balanced ok (Step.first {s} {m'} acquired at allowed run) =
    first-Balanced acquired s m' ok.store at allowed run
Step-Balanced ok (Step.second {s} acquired at allowed) =
    Brings-Balanced s _ (λ i. 0) refl (second-Brings acquired s.store ok.store)
Step-Balanced ok (Step.should_stop {s} at) =
    Brings-Balanced s _ (λ i. 0) refl (unchanged-Brings s.store ok.store)
Step-Balanced ok (Step.refuse {s} {m'} block t f d ints fresh run) =
    let same = Begun-refused (begin_request-Begun s.store block t f d ints) m' run in
    Brings-Balanced s _ (λ i. 0) refl
      (subst (λ m. Brings s.store m (λ i. 0)) same (unchanged-Brings s.store ok.store))
Step-Balanced ok (Step.request {s} {m'} {p} block t f d ints fresh run) =
    let (a, got, new, who, range) =
      Begun-taken (begin_request-Begun s.store block t f d ints) m' p run in
    let same : m'.b ≡ s.store.b = ap (λ (m : Store). m.b) new in
    let still = unchanged-Brings s.store ok.store in
    record {
      people = omega (arith, ap people same, tally-cons one p s.pending, sum_below_zeros 10);
      serviced = λ i li. ap (λ (b : Building). (b.f i).serviced) same ∙ still.serviced i li;
      forgotten = inr refl;
    }
Step-Balanced ok (Step.enqueue {s} {m'} acquired before after p at allowed run) =
    let (valid, others) = All_middle IsValid before p after (subst (All IsValid) at ok.pending) in
    enqueue-Balanced acquired s m' before after p ok.store valid at allowed run
Step-Balanced ok (Step.start {s} acquired allowed) =
    Brings-Balanced s _ (λ i. 0) refl (start-Brings acquired s.store ok.store)
Step-Balanced ok (Step.stop {s} acquired allowed) =
    Brings-Balanced s _ (λ i. 0) refl (stop-Brings acquired s.store ok.store)

both_quiet :
    {signals : Bool} {m n : ℕ}
    → (signals ≡ true) ⊎ (m ≡ 0)
    → (signals ≡ true) ⊎ (n ≡ 0)
    → (signals ≡ true) ⊎ (m + n ≡ 0)
both_quiet (inl e) any = inl e
both_quiet (inr none) (inl e) = inl e
both_quiet (inr none) (inr none_now) = inr (omega (arith, none, none_now))

initial-people : (b : Building) → people (initial b).store.b ≡ 0
unfolding init_building init_elevator tally
initial-people b = omega (
  arith,
  sum_below_zero _ (λ i li. tally-nil one (init_floors-Fresh 10 b.f i li).waiting),
  sum_below_zero _ (λ i li. tally-nil one (init_lists-empty 10 b.e.p i li)),
)

initial-serviced : (b : Building) (i : ℕ) → i < 10 → ((initial b).store.b.f i).serviced ≡ 0
unfolding init_building init_elevator
initial-serviced b i li = (init_floors-Fresh 10 b.f i li).serviced

-- In every reachable state the passengers whose calls wait for the lock, those in the queues, those
-- aboard, those brought and those forgotten so far are together as many as the requests accepted so
-- far. All three numbers are counted along the run: a request that is taken is accepted; a passenger
-- is brought when an elevator in service takes the lock of a first section with the passenger in the
-- list of its floor; and one whose lock is interrupted is forgotten. Each floor has counted as
-- serviced, modulo 2 ^ 32, those who were brought from it; and where no lock is interrupted nobody is
-- forgotten.
pub everybody_accounted :
    {signals : Bool} {b : Building} {s : System} (r : Reach signals b s)
    → (accepted r
        ≡ tally one s.pending
          + queued one s.store.b
          + aboard one s.store.b.e.p
          + sum_below 10 (brought r)
          + forgotten r)
      × ((i : ℕ) → i < 10 → (s.store.b.f i).serviced ≡ brought r i % 2 ^ 32)
      × ((signals ≡ true) ⊎ (forgotten r ≡ 0))
unfolding accepted forgotten brought
everybody_accounted {b = b} Reach.begin = (
  omega (arith, initial-people b, sum_below_zeros 10, tally-nil one {l = []} refl),
  λ i li. omega (arith, initial-serviced b i li),
  inr refl,
)
everybody_accounted (Reach.next r step) =
    let (lost, none_lost, ok) = Reach-SystemOk r in
    let step_ok = Step-Balanced ok step in
    let (before, counts, quiet) = everybody_accounted r in
    (
      omega (arith, before, step_ok.people, sum_below_add 10 (brought r) (brings step)),
      λ i li. omega (arith, step_ok.serviced i li, counts i li),
      both_quiet quiet step_ok.forgotten,
    )
