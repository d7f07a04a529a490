-- ===== src/Programs/Examples.antt =====
-- The theorems on the test programs, on the module just after it was started.
use cop4610_project.Base.{
  ◌-◌, ◌*◌, ℕ, ◌≤◌, ◌≡◌, refl, true, false, some, [], ◌∷◌, ◌++◌, arith, codes,
}
use cop4610_project.Elevator.Building.{init_elevator, init_building}
use cop4610_project.Elevator.Invariant.Requesting.{InRange}
use cop4610_project.Elevator.Kernel.{Kernel}
use cop4610_project.Elevator.System.{System, Step, Reach, initial}
use cop4610_project.Elevator.System.Safety.{pending_blocks, Reach-SystemOk}
use cop4610_project.Elevator.System.Sample.{zeroed}
use cop4610_project.Elevator.Requests.{start_elevator}
use cop4610_project.Programs.{
  Turn, Ended, rnd, producer_text, driver_main, producer_main, consumer_main,
}
use cop4610_project.Programs.Accepted.{IsReady, queued_in}
use cop4610_project.Programs.Driving.{smooth, party, driver_fills_two}
use cop4610_project.Programs.Producing.{producer_asks}
use cop4610_project.Programs.Consuming.{start_text, stop_text, started, stopped, consumer_switches}

abbrev up_and_running : System
up_and_running = record (initial zeroed) { store = (start_elevator true (initial zeroed).store).0 }

running-Reach : Reach false zeroed up_and_running
running-Reach = Reach.next Reach.begin (Step.start true (λ h. refl))

abbrev running : Kernel
running = record {
  stubs = record { issue = true; start = true; stop = true };
  proc_entry = true;
  thread = true;
  store = up_and_running.store;
}

abbrev running_blocks : ℕ → ℕ
running_blocks = pending_blocks up_and_running (Reach-SystemOk running-Reach).0

running-IsReady : IsReady running_blocks running
unfolding start_elevator init_elevator init_building
running-IsReady = record {
  linked = refl;
  store = (Reach-SystemOk running-Reach).2.store;
  going = refl;
}

-- Blocks 64 bytes apart, the later the lower.
abbrev spaced : ℕ → ℕ
spaced j = 4096 - 64 * j

driver_fills_two_example :
    (k' : Kernel) × (driver_main 1 (smooth spaced) running ≡ some (k', [], 0))
    × IsReady running_blocks k'
    × ((k'.store.b.f 0).waiting ≡ (running.store.b.f 0).waiting ++ party spaced 1)
    × ((k'.store.b.f 1).waiting ≡ (running.store.b.f 1).waiting ++ party spaced 2)
    × ((j : ℕ) → 2 ≤ j → (k'.store.b.f j).waiting ≡ (running.store.b.f j).waiting)
unfolding start_elevator init_elevator init_building
driver_fills_two_example =
    driver_fills_two spaced running running-IsReady (λ j low high. refl)
      (λ i j low lt high e. omega (arith, e))

producer_asks_example :
    let type = rnd 5 1 4 in
    let start = rnd 12 1 10 in
    let dest = rnd 7 1 10 in
    (producer_main 1 5 12
        ((22 ∷ 2 ∷ []) ++ 7 ∷ [])
        (record { acquired = true; block = some 100 })
        running
      ≡ Ended.returned (queued_in 100 type start dest running) (producer_text type start dest 0) 0)
    × InRange type start dest
    × IsReady running_blocks (queued_in 100 type start dest running)
unfolding rnd start_elevator init_elevator init_building
producer_asks_example =
    producer_asks 100 5 12 (22 ∷ 2 ∷ []) 7 [] running running-IsReady refl (refl, (refl, tt))
      (omega arith)

-- The module just after it was loaded.
abbrev resting : Kernel
resting = record running { store = (initial zeroed).store }

consumer_switches_example :
    let name = codes "./consumer.x" in
    let turn : Turn = record { acquired = true; block = some 100 } in
    let on = codes "--start" in
    let off = codes "--stop" in
    let k1 = started resting in
    let k2 = stopped k1 in
    (consumer_main (name ∷ on ∷ []) turn resting ≡ (k1, start_text 0, 0))
    × (consumer_main (name ∷ on ∷ []) turn k1 ≡ (k1, start_text 1, 0))
    × (consumer_main (name ∷ off ∷ []) turn k1 ≡ (k2, stop_text 0, 0))
    × (consumer_main (name ∷ off ∷ []) turn k2 ≡ (k2, stop_text 1, 0))
    × (consumer_main (name ∷ on ∷ []) turn k2 ≡ (k2, start_text 1, 0))
unfolding init_elevator init_building
consumer_switches_example =
    consumer_switches (codes "./consumer.x") (record { acquired = true; block = some 100 }) resting
      refl refl refl refl
