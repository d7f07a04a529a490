-- ===== src/Elevator/Progress/Restarting.antt =====
-- A shutdown while somebody waits, and a new start after it.
use cop4610_project.Base.{
  ℕ, ◌+◌, ◌*◌, ◌≤◌, ◌<◌, ◌≡◌, ◌≢◌, inl, inr, refl, ap, sym, subst, true, some, arith, All, tally,
  sum_below-congr,
}
use cop4610_project.Elevator.Types.{idle, offline, Store}
use cop4610_project.Elevator.Thread.{run_elevator}
use cop4610_project.Elevator.Requests.{start_elevator, stop_elevator}
use cop4610_project.Elevator.Invariant.{aboard, StoreOk}
use cop4610_project.Elevator.Invariant.Advancing.{NobodyWaits, NobodyRides, SomebodyWaits}
use cop4610_project.Elevator.Invariant.Requesting.{start_elevator-StoreOk}
use cop4610_project.Elevator.Exit.Freeing.{sum_below_zero}
use cop4610_project.Elevator.System.Start.{tally-nil}
use cop4610_project.Elevator.Service.Measures.{queued}
use cop4610_project.Elevator.Progress.Delivery.{rounds}
use cop4610_project.Elevator.Progress.Working.{one, GoesElsewhere}
use cop4610_project.Elevator.Progress.Finishing.{everybody_is_brought}
use cop4610_project.Elevator.Progress.Stopping.{stop_elevator-stops}

-- start_elevator on an elevator that is offline.
abbrev started : Store → Store
started m = record m {
  b = record (m.b) { e = record (m.b.e) { status = idle; current = 0; next = 1; shutdown = 0 } };
}

start_elevator-started :
    (m : Store) → m.b.e.status ≡ offline → start_elevator true m ≡ (started m, 0)
unfolding start_elevator
start_elevator-started m off = rw off refl

-- Everybody in the building is brought after the start.
abbrev BringsAll : (leaked : ℕ → ℕ) → ℕ → Store → Type 0
BringsAll leaked bound m =
    (n : ℕ) × (n ≤ bound)
    × (m' : Store) × (run_elevator (rounds n) m ≡ some m')
    × StoreOk leaked m'
    × NobodyWaits m'.b
    × NobodyRides m'.b.e

start_elevator-brings :
    {leaked : ℕ → ℕ} (m : Store)
    → StoreOk leaked m
    → m.b.e.status ≡ offline
    → ((i : ℕ) → i < 10 → All GoesElsewhere (m.b.f i).waiting)
    → BringsAll leaked (38 * queued one m.b + 19 * aboard one m.b.e.p) (start_elevator true m).0
start_elevator-brings {leaked} m ok off elsewhere =
    let same = ap (λ (r : Store × ℕ). r.0) (start_elevator-started m off) in
    let ok' = subst (StoreOk leaked) same (start_elevator-StoreOk m true ok) in
    subst (BringsAll leaked (38 * queued one m.b + 19 * aboard one m.b.e.p)) (sym same)
      (everybody_is_brought (started m) ok' refl (λ e. cc) elsewhere)

-- stop_elevator on an elevator in service, while somebody waits and nobody waits for the floor where
-- they are: within 18 rounds the elevator has let everybody off and is offline. start_elevator then
-- returns 0, and within 38 rounds for each who waited before, everybody has been brought, and nobody
-- is left in the building. No lock is interrupted, no other call comes, and no round faults.
pub stopped_and_restarted :
    {leaked : ℕ → ℕ} (m : Store)
    → StoreOk leaked m
    → m.b.e.shutdown ≡ 0
    → m.b.e.status ≢ offline
    → SomebodyWaits m.b
    → ((i : ℕ) → i < 10 → All (λ p. p.s_floor ≢ p.d_floor) (m.b.f i).waiting)
    → (k : ℕ) × (k ≤ 18)
      × (closed : Store) × (run_elevator (rounds k) (stop_elevator true m).0 ≡ some closed)
      × (closed.b.e.status ≡ offline)
      × NobodyRides closed.b.e
      × ((start_elevator true closed).1 ≡ 0)
      × (n : ℕ) × (n ≤ 38 * queued (λ p. 1) m.b)
      × (m' : Store) × (run_elevator (rounds n) (start_elevator true closed).0 ≡ some m')
      × StoreOk leaked m'
      × NobodyWaits m'.b
      × NobodyRides m'.b.e
stopped_and_restarted m ok going active (i, li, waits) elsewhere =
    let (zero_back, k, short, closed, run, ok', empty, freed, same, how) =
      stop_elevator-stops m ok going active in
    let off : closed.b.e.status ≡ offline = elim how [
      | inl (off, more) ↦ off
      | inr (rests, quiet) ↦ absurd (waits (quiet i li))
    ] in
    let (n, few, m', run', ok'', nobody, none) =
      start_elevator-brings closed ok' off
        (λ j lj. subst (All GoesElsewhere) (sym (same j)) (elsewhere j lj)) in
    let queues =
      sum_below-congr 10 (λ j. tally one (closed.b.f j).waiting) (λ j. tally one (m.b.f j).waiting)
        (λ j lj. ap (tally one) (same j)) in
    let nobody_aboard =
      sum_below_zero (λ j. tally one (closed.b.e.p j)) (λ j lj. tally-nil one (empty j lj)) in
    (
      k,
      short,
      closed,
      run,
      off,
      empty,
      ap (λ (r : Store × ℕ). r.1) (start_elevator-started closed off),
      n,
      omega (arith, few, queues, nobody_aboard),
      m',
      run',
      ok'',
      nobody,
      none,
    )
