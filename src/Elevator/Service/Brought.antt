-- ===== src/Elevator/Service/Brought.antt =====
-- Changes of the store by the thread and the calls, and whom they bring to their floors.
use native.Mathlib.Decide.{ℕ_discrete}
use cop4610_project.Base.{
  ℕ, ◌+◌, ◌%◌, ◌^◌, ◌<◌, ◌≡◌, refl, ap, sym, ◌∙◌, subst, fun_ext, Bool, Bool-cases, true, false,
  arith, if◌then◌else◌, ◌==◌, ==_self, List, [], ◌∷◌, All, tally, sum_below, sum_below-congr,
  sum_below-change, inl, inr,
}
use cop4610_project.Elevator.Types.{loading, Passenger, Building, Store}
use cop4610_project.Elevator.Thread.{is_offline, set_status, second_section}
use cop4610_project.Elevator.Requests.{start_elevator, stop_elevator}
use cop4610_project.Elevator.Invariant.{aboard, RidesTo, WaitsAt, StoreOk}
use cop4610_project.Elevator.Invariant.Unloading.{from}
use cop4610_project.Elevator.Invariant.Servicing.{Serviced, asleep, vacant, served, FloorServed}
use cop4610_project.Elevator.Invariant.Advancing.{Advanced, advance-Advanced}
use cop4610_project.Elevator.Service.Measures.{
  queued, All_map, All_front, sum_below_zeros, Loaded-queued, Loaded-aboard, Loaded-serviced,
  Unloaded-aboard,
}
use cop4610_project.Elevator.Progress.Standstill.{on_duty_test}

-- Counts every passenger.
abbrev pub one : Passenger → ℕ
one p = 1

abbrev pub people : Building → ℕ
people b = queued one b + aboard one b.e.p

-- A change of the store, of which `off` were brought.
pub record Brings (m m' : Store) (off : ℕ → ℕ) : Type 0 where
  pub people : people m'.b + sum_below 10 off ≡ people m.b
  pub serviced : (i : ℕ) → i < 10 → (m'.b.f i).serviced ≡ ((m.b.f i).serviced + off i) % 2 ^ 32

Brings-none :
    {leaked : ℕ → ℕ} (m m' : Store) (off : ℕ → ℕ)
    → StoreOk leaked m
    → people m'.b ≡ people m.b
    → ((i : ℕ) → i < 10 → (m'.b.f i).serviced ≡ (m.b.f i).serviced)
    → ((i : ℕ) → off i ≡ 0)
    → Brings m m' off
Brings-none m m' off ok same counts none = record {
  people =
      omega (arith, same, sum_below-congr 10 off (λ i. 0) (λ i li. none i), sum_below_zeros 10);
  serviced = λ i li. omega (arith, counts i li, none i, (ok.floors i li).serviced);
}

-- Everybody in a list comes from one floor.
from-own :
    (p : Passenger) (ps : List Passenger)
    → tally (from p.s_floor) (p ∷ ps) ≡ 1 + tally (from p.s_floor) ps
unfolding tally
from-own p ps = rw (==_self p.s_floor) refl

sum-from :
    (l : List Passenger)
    → All (λ p. p.s_floor < 10) l
    → sum_below 10 (λ i. tally (from i) l) ≡ tally one l
unfolding tally
sum-from [] all = sum_below_zeros 10
sum-from (p ∷ ps) (low, all) = omega (
  arith,
  sum-from ps all,
  sum_below-change 10 (λ i. tally (from i) (p ∷ ps)) (λ i. tally (from i) ps) p.s_floor low
      (λ i li ne. ground (arith, ne)),
  from-own p ps,
)

-- Those who ride to the floor leave, and then some board.
FloorServed-Brings :
    {leaked : ℕ → ℕ} (m m' : Store)
    → StoreOk leaked m
    → FloorServed m.b.e.current m m'
    → Brings m m' (λ i. tally (from i) (m.b.e.p m.b.e.current))
FloorServed-Brings m m' ok fs =
    let k = m.b.e.current in
    let q = m.b.e.p k in
    let lt : k < 10 = ok.motion.current in
    let starts =
      All_map (RidesTo k) (λ p. p.s_floor < 10) q (λ p h. h.2) (ok.elevator.queues k lt) in
    let gone = Unloaded-aboard one k (set_status loading m) fs.between lt fs.off in
    let queues : queued one fs.between.b ≡ queued one m.b =
      sum_below-congr 10 (λ i. tally one (fs.between.b.f i).waiting)
        (λ i. tally one (m.b.f i).waiting) (λ i li. ap (tally one) (fs.off.waiting i)) in
    let left : Brings m fs.between (λ i. tally (from i) q) = record {
      people = omega (arith, gone, queues, sum-from q starts);
      serviced = fs.off.serviced;
    } in
    elim (ℕ_discrete m.b.e.shutdown 1) [
      | yes shut ↦ subst (λ n. Brings m n (λ i. tally (from i) q)) (sym (fs.closed shut)) left
      | no going ↦
          let (taken, rest, on) = fs.on going in
          let queue =
            subst (All (WaitsAt k)) (sym (fs.off.waiting k) ∙ on.queue) (ok.floors k lt).queue in
          let low =
            All_map (WaitsAt k) (λ p. p.d_floor < 10) taken (λ p h. h.2)
              (All_front (WaitsAt k) taken rest queue) in
          record {
            people = omega (
              arith,
              left.people,
              Loaded-queued one k taken rest fs.between.b m'.b lt on,
              Loaded-aboard one k taken rest fs.between.b m'.b low on,
            );
            serviced =
                λ i li. Loaded-serviced k taken rest fs.between.b m'.b on i ∙ left.serviced i li;
          }
    ]

-- Whom a floor section brings: nobody while the elevator is offline.
abbrev pub leaving : Store → ℕ → ℕ
leaving m i = if is_offline m.b.e.status then 0 else tally (from i) (m.b.e.p m.b.e.current)

pub unchanged-Brings : {leaked : ℕ → ℕ} (m : Store) → StoreOk leaked m → Brings m m (λ i. 0)
unchanged-Brings m ok = Brings-none m m (λ i. 0) ok refl (λ i li. refl) (λ i. refl)

pub Serviced-Brings :
    {leaked : ℕ → ℕ} {m m' : Store} → StoreOk leaked m → Serviced m m' → Brings m m' (leaving m)
unfolding tally
Serviced-Brings {m} ok (asleep off) =
    Brings-none m m (leaving m) ok refl (λ i li. refl) (λ i. rw off refl)
Serviced-Brings {m} ok (vacant duty none empty) =
    Brings-none m m (leaving m) ok refl (λ i li. refl)
      (λ i. rw (on_duty_test m.b.e.status duty, empty) refl)
Serviced-Brings {m} {m'} ok (served duty some_one fs) =
    subst (Brings m m') (fun_ext (λ i. rw (on_duty_test m.b.e.status duty) refl))
      (FloorServed-Brings m m' ok fs)

Advanced-Brings :
    {leaked : ℕ → ℕ} (m : Store) {b' : Building}
    → StoreOk leaked m
    → Advanced m.b b'
    → Brings m (record m { b = b' }) (λ i. 0)
Advanced-Brings m ok (Advanced.asleep off) = unchanged-Brings m ok
Advanced-Brings m ok (Advanced.resting duty riders nobody) =
    Brings-none m _ (λ i. 0) ok refl (λ i li. refl) (λ i. refl)
Advanced-Brings m ok (Advanced.closing duty riders waits shut) =
    Brings-none m _ (λ i. 0) ok refl (λ i li. refl) (λ i. refl)
Advanced-Brings m ok (Advanced.moving duty some_one moved) =
    Brings-none m _ (λ i. 0) ok (ap (λ p. queued one m.b + aboard one p) moved.riders)
      (λ i li. refl) (λ i. refl)

pub start-Brings :
    {leaked : ℕ → ℕ} (acquired : Bool) (m : Store)
    → StoreOk leaked m
    → Brings m (start_elevator acquired m).0 (λ i. 0)
unfolding start_elevator
start-Brings false m ok = unchanged-Brings m ok
start-Brings true m ok = elim (Bool-cases (is_offline m.b.e.status)) [
  | inl off ↦ rw off (Brings-none m _ (λ i. 0) ok refl (λ i li. refl) (λ i. refl))
  | inr active ↦ rw active (unchanged-Brings m ok)
]

pub stop-Brings :
    {leaked : ℕ → ℕ} (acquired : Bool) (m : Store)
    → StoreOk leaked m
    → Brings m (stop_elevator acquired m).0 (λ i. 0)
unfolding stop_elevator
stop-Brings false m ok = unchanged-Brings m ok
stop-Brings true m ok = elim (Bool-cases (m.b.e.shutdown == 0)) [
  | inl going ↦ rw going (Brings-none m _ (λ i. 0) ok refl (λ i li. refl) (λ i. refl))
  | inr closing ↦ rw closing (unchanged-Brings m ok)
]

pub second-Brings :
    {leaked : ℕ → ℕ} (acquired : Bool) (m : Store)
    → StoreOk leaked m
    → Brings m (second_section acquired m) (λ i. 0)
unfolding second_section
second-Brings false m ok = unchanged-Brings m ok
second-Brings true m ok =
    let (b', run, ok', what) = advance-Advanced m ok in
    subst (λ b. Brings m (record m { b = b }) (λ i. 0)) (sym run) (Advanced-Brings m ok what)
