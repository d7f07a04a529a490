-- ===== src/Elevator/Progress/Finishing.antt =====
-- How long it takes the thread to bring everybody, where no more calls come.
use native.Mathlib.Decide.{ℕ_discrete}
use cop4610_project.Base.{
  ℕ, zero, suc, ◌+◌, ◌*◌, ◌≤◌, ◌<◌, ◌≡◌, ◌≢◌, refl, ap, ◌∙◌, true, some, ◌∷◌, ◌++◌, arith, All,
  tally, elem-le-sum_below,
}
use cop4610_project.Elevator.Types.{offline, Store}
use cop4610_project.Elevator.Thread.{run_elevator}
use cop4610_project.Elevator.Invariant.{aboard, StoreOk}
use cop4610_project.Elevator.Invariant.Advancing.{NobodyWaits, NobodyRides}
use cop4610_project.Elevator.Service.Measures.{queued}
use cop4610_project.Elevator.Progress.Delivery.{rounds}
use cop4610_project.Elevator.Progress.Working.{one, left, Working, tally-one-nil}
use cop4610_project.Elevator.Progress.Emptying.{Fewer-soon}

rounds_add : (a b : ℕ) → rounds (a + b) ≡ rounds a ++ rounds b
rounds_add zero b = let same : 0 + b ≡ b = omega arith in ap rounds same
rounds_add (suc a) b =
    let same : suc a + b ≡ suc (a + b) = omega arith in
    ap rounds same ∙ ap (λ l. (true, true) ∷ l) (rounds_add a b)

-- Until nothing is left to do.
abbrev Done : (leaked : ℕ → ℕ) (bound : ℕ) → Store → Type 0
Done leaked bound m =
    (n : ℕ) × (n ≤ bound)
    × (m' : Store) × (run_elevator (rounds n) m ≡ some m')
    × StoreOk leaked m'
    × (left m'.b ≡ 0)

finishes :
    {leaked : ℕ → ℕ} (k : ℕ) (m : Store) → Working leaked m → left m.b ≤ k → Done leaked (19 * k) m
unfolding run_elevator
finishes zero m w few = (0, omega arith, m, refl, w.ok, omega (arith, few))
finishes (suc k) m w few = elim (ℕ_discrete (left m.b) 0) [
  | yes none ↦ (0, omega arith, m, refl, w.ok, none)
  | no some_one ↦
      let fewer = Fewer-soon m w (omega (arith, some_one)) in
      let (n, short, m', run, ok', done) =
        finishes k fewer.after fewer.working (omega (arith, fewer.less, few)) in
      (
        fewer.count + n,
        omega (arith, fewer.short, short),
        m',
        ap (λ l. run_elevator l m) (rounds_add fewer.count n) ∙ fewer.run (rounds n) ∙ run,
        ok',
        done,
      )
]

-- An elevator in service that keeps running, with no shutdown asked for, no lock interrupted and no
-- further call, where nobody waits for the floor where they are: within 19 rounds for each passenger
-- aboard and 38 for each who waits, everybody has boarded and got off, and nobody is left in the
-- building. No round faults, and the invariant holds then.
pub everybody_is_brought :
    {leaked : ℕ → ℕ} (m : Store)
    → StoreOk leaked m
    → m.b.e.shutdown ≡ 0
    → m.b.e.status ≢ offline
    → ((i : ℕ) → i < 10 → All (λ p. p.s_floor ≢ p.d_floor) (m.b.f i).waiting)
    → (n : ℕ) × (n ≤ 38 * queued (λ p. 1) m.b + 19 * aboard (λ p. 1) m.b.e.p)
      × (m' : Store) × (run_elevator (rounds n) m ≡ some m')
      × StoreOk leaked m'
      × NobodyWaits m'.b
      × NobodyRides m'.b.e
everybody_is_brought m ok going active queues =
    let w : Working _ m = record { ok = ok; going = going; active = active; queues = queues } in
    let (n, short, m', run, ok', done) = finishes (left m.b) m w (omega arith) in
    (
      n,
      omega (arith, short),
      m',
      run,
      ok',
      λ i li.
          tally-one-nil (m'.b.f i).waiting
            (omega (arith, done, elem-le-sum_below 10 (λ j. tally one (m'.b.f j).waiting) i li)),
      λ i li.
          tally-one-nil (m'.b.e.p i)
            (omega (arith, done, elem-le-sum_below 10 (λ j. tally one (m'.b.e.p j)) i li)),
    )
