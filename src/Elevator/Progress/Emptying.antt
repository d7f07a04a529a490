-- ===== src/Elevator/Progress/Emptying.antt =====
-- The thread alone, without further calls, until nobody is left.
use cop4610_project.Base.{
  ℕ, zero, suc, ◌≤◌, ◌<◌, ◌≡◌, ◌≢◌, inl, inr, refl, ap, sym, ◌∙◌, subst, Bool, true, List, [], ◌∷◌,
  ◌++◌, arith, All, tally, sum_below-congr, elem-le-sum_below, ltb, if◌then◌else◌,
}
use cop4610_project.Elevator.Types.{Passenger, Elevator, Building, Store}
use cop4610_project.Elevator.Thread.{run_elevator}
use cop4610_project.Elevator.Invariant.{aboard, WaitsAt}
use cop4610_project.Elevator.Invariant.Advancing.{
  NobodyWaits, NobodyRides, check_building-decides, check_elevator-decides,
}
use cop4610_project.Elevator.System.Start.{tally-nil}
use cop4610_project.Elevator.Exit.Freeing.{sum_below_zero}
use cop4610_project.Elevator.Progress.Sweep.{
  distance, distance-le, distance-Moved, at_floor, on_the_way,
}
use cop4610_project.Elevator.Progress.Turning.{Leaves, turn, turn-le, turned, turn-Moved}
use cop4610_project.Elevator.Progress.Delivery.{rounds, distance-same}
use cop4610_project.Elevator.Progress.Working.{one, left, GoesElsewhere, Working}
use cop4610_project.Elevator.Progress.Rounds.{Passing, round-Working}

-- Within `n` rounds there is less to do.
pub record Fewer (leaked : ℕ → ℕ) (n : ℕ) (m : Store) : Type 0 where
  pub count : ℕ
  pub short : count ≤ n
  pub after : Store
  pub run :
      (more : List (Bool × Bool)) → run_elevator (rounds count ++ more) m ≡ run_elevator more after
  pub working : Working leaked after
  pub less : left after.b < left m.b

one_round :
    {leaked : ℕ → ℕ} (n : ℕ) (m m' : Store)
    → 1 ≤ n
    → ((more : List (Bool × Bool)) → run_elevator ((true, true) ∷ more) m ≡ run_elevator more m')
    → Working leaked m'
    → left m'.b < left m.b
    → Fewer leaked n m
one_round n m m' some_rounds run w less = record {
  count = 1;
  short = some_rounds;
  after = m';
  run = run;
  working = w;
  less = less;
}

Passing-left : (m m' : Store) → Passing m m' → left m'.b ≡ left m.b
Passing-left m m' pass = omega (
  arith,
  sum_below-congr 10 (λ i. tally one (m'.b.e.p i)) (λ i. tally one (m.b.e.p i))
      (λ i li. ap (tally one) (pass.idle.riders i li)),
  sum_below-congr 10 (λ i. tally one (m'.b.f i).waiting) (λ i. tally one (m.b.f i).waiting)
      (λ i li. ap (tally one) (pass.idle.waiting i li)),
)

one_more :
    {leaked : ℕ → ℕ} (n : ℕ) (m m' : Store)
    → ((more : List (Bool × Bool)) → run_elevator ((true, true) ∷ more) m ≡ run_elevator more m')
    → Passing m m'
    → Fewer leaked n m'
    → Fewer leaked (suc n) m
one_more n m m' run pass fewer = record {
  count = suc fewer.count;
  short = omega (arith, fewer.short);
  after = fewer.after;
  run = λ more. run (rounds fewer.count ++ more) ∙ fewer.run more;
  working = fewer.working;
  less = omega (arith, fewer.less, Passing-left m m' pass);
}

tally-one-pos : (l : List Passenger) → l ≢ [] → 0 < tally one l
unfolding tally
tally-one-pos [] ne = absurd (ne refl)
tally-one-pos (p ∷ ps) ne = omega arith

rider_to_do : (d : ℕ) (b : Building) → d < 10 → b.e.p d ≢ [] → 0 < left b
rider_to_do d b floor on =
    omega
      (arith, tally-one-pos (b.e.p d) on, elem-le-sum_below 10 (λ i. tally one (b.e.p i)) d floor)

waiter_to_do : (f : ℕ) (b : Building) → f < 10 → (b.f f).waiting ≢ [] → 0 < left b
waiter_to_do f b floor waits = omega (
  arith,
  tally-one-pos (b.f f).waiting waits,
  elem-le-sum_below 10 (λ i. tally one (b.f i).waiting) f floor,
)

module _ {leaked : ℕ → ℕ} (d : ℕ) (floor : d < 10) where
  -- Somebody aboard gets off, or there is less to do before.
  rider_gets_off :
      (k : ℕ) (m : Store)
      → Working leaked m
      → m.b.e.p d ≢ []
      → distance d m.b.e ≡ k
      → Fewer leaked (suc k) m
  rider_gets_off zero m w on at =
      let (m', run, w', how) = round-Working m w (rider_to_do d m.b floor on) in
      elim how [
        | inl less ↦ one_round 1 m m' (omega arith) run w' less
        | inr pass ↦
            let here = at_floor d m.b.e w.ok.motion floor at in
            absurd (on (subst (λ c. m.b.e.p c ≡ []) here pass.idle.nobody_off))
      ]
  rider_gets_off (suc k) m w on at =
      let (m', run, w', how) = round-Working m w (rider_to_do d m.b floor on) in
      elim how [
        | inl less ↦ one_round (suc (suc k)) m m' (omega arith) run w' less
        | inr pass ↦
            let e = pass.before in
            let same = distance-same d m.b.e e pass.same.0 pass.same.1 pass.same.2 in
            let away = on_the_way d e pass.before_ok floor k (same ∙ at) in
            let nearer =
              distance-Moved d e pass.before_ok floor m'.b.e pass.moved w'.ok.motion away in
            one_more (suc k) m m' run pass (
              rider_gets_off k m' w' (λ h. on (sym (pass.idle.riders d floor) ∙ h))
                (omega (arith, same, nearer, at)))
      ]

-- The direction in which a passenger wants to leave.
abbrev wanted : Passenger → ℕ
wanted p = if ltb p.s_floor p.d_floor then 1 else 0

wanted-Leaves :
    (f : ℕ) (p : Passenger) → f < 10 → WaitsAt f p → GoesElsewhere p → Leaves f (wanted p)
wanted-Leaves f p floor at away = ground (arith, at.1, at.2, away)

turn-same :
    (f dir : ℕ) (e e' : Elevator)
    → (e'.current ≡ e.current) × (e'.next ≡ e.next) × (e'.direction ≡ e.direction)
    → turn f dir e' ≡ turn f dir e
turn-same f dir e e' same = rw (same.0, same.1, same.2)

module _ {leaked : ℕ → ℕ} (f : ℕ) (floor : f < 10) (p : Passenger) (ps : List Passenger) where
  first-Leaves : (m : Store) → Working leaked m → (m.b.f f).waiting ≡ p ∷ ps → Leaves f (wanted p)
  first-Leaves m w first =
      let waits = subst (All (WaitsAt f)) first (w.ok.floors f floor).queue in
      let elsewhere = subst (All GoesElsewhere) first (w.queues f floor) in
      wanted-Leaves f p floor waits.0 elsewhere.0

  -- Where nobody is aboard, the first of a queue boards, or there is less to do before.
  waiter_boards :
      (k : ℕ) (m : Store)
      → Working leaked m
      → (m.b.f f).waiting ≡ p ∷ ps
      → aboard one m.b.e.p ≡ 0
      → turn f (wanted p) m.b.e ≡ k
      → Fewer leaked (suc k) m
  waiter_boards zero m w first nobody at =
      let (m', run, w', how) = round-Working m w (waiter_to_do f m.b floor (λ h. cc)) in
      elim how [
        | inl less ↦ one_round 1 m m' (omega arith) run w' less
        | inr pass ↦
            let (here, way) = turned f (wanted p) m.b.e w.ok.motion (first-Leaves m w first) at in
            absurd (
              pass.idle.nobody_on nobody p ps
                (subst (λ c. (m.b.f c).waiting ≡ p ∷ ps) (sym here) first) way)
      ]
  waiter_boards (suc k) m w first nobody at =
      let leaves = first-Leaves m w first in
      let (m', run, w', how) = round-Working m w (waiter_to_do f m.b floor (λ h. cc)) in
      elim how [
        | inl less ↦ one_round (suc (suc k)) m m' (omega arith) run w' less
        | inr pass ↦
            let e = pass.before in
            let same = turn-same f (wanted p) m.b.e e pass.same in
            let nearer =
              turn-Moved f (wanted p) e pass.before_ok leaves m'.b.e k pass.moved w'.ok.motion
                (omega (arith, same, at)) in
            let still : aboard one m'.b.e.p ≡ 0 =
              sum_below-congr 10 (λ i. tally one (m'.b.e.p i)) (λ i. tally one (m.b.e.p i))
                (λ i li. ap (tally one) (pass.idle.riders i li))
              ∙ nobody in
            one_more (suc k) m m' run pass
              (waiter_boards k m' w' (pass.idle.waiting f floor ∙ first) still nearer)
      ]

Fewer-weaken :
    {leaked : ℕ → ℕ} (n n' : ℕ) (m : Store) → n ≤ n' → Fewer leaked n m → Fewer leaked n' m
Fewer-weaken n n' m le fewer = record {
  count = fewer.count;
  short = omega (arith, fewer.short, le);
  after = fewer.after;
  run = fewer.run;
  working = fewer.working;
  less = fewer.less;
}

list-cases : (l : List Passenger) → l ≢ [] → (p : Passenger) × (ps : List Passenger) × (l ≡ p ∷ ps)
list-cases [] ne = absurd (ne refl)
list-cases (p ∷ ps) ne = (p, ps, refl)

nobody_left : (b : Building) → NobodyRides b.e → NobodyWaits b → left b ≡ 0
nobody_left b rides waits = omega (
  arith,
  sum_below_zero (λ i. tally one (b.e.p i)) (λ i li. tally-nil one (rides i li)),
  sum_below_zero (λ i. tally one (b.f i).waiting) (λ i li. tally-nil one (waits i li)),
)

pub Fewer-soon : {leaked : ℕ → ℕ} (m : Store) → Working leaked m → 0 < left m.b → Fewer leaked 19 m
Fewer-soon m w busy = elim (check_elevator-decides m.b.e) [
  | inl (rides, (d, floor, on)) ↦
      let short = distance-le d m.b.e w.ok.motion floor in
      Fewer-weaken (suc (distance d m.b.e)) 19 m (omega (arith, short))
        (rider_gets_off d floor (distance d m.b.e) m w on refl)
  | inr (empty, nobody) ↦ elim (check_building-decides m.b) [
    | inl (waits, (f, floor, queue)) ↦
        let (p, ps, first) = list-cases (m.b.f f).waiting queue in
        let short = turn-le f (wanted p) m.b.e w.ok.motion (first-Leaves f floor p ps m w first) in
        let none_aboard : aboard one m.b.e.p ≡ 0 =
          sum_below_zero (λ i. tally one (m.b.e.p i)) (λ i li. tally-nil one (nobody i li)) in
        Fewer-weaken (suc (turn f (wanted p) m.b.e)) 19 m (omega (arith, short))
          (waiter_boards f floor p ps (turn f (wanted p) m.b.e) m w first none_aboard refl)
    | inr (quiet, none_waits) ↦ absurd (omega (arith, busy, nobody_left m.b nobody none_waits))
  ]
]
