-- ===== src/Elevator/Examples.antt =====
-- The theorems on the progress of the elevator, its proc file and its module, at the sample run.
use cop4610_project.Base.{
  ℕ, ◌≤◌, ◌≡◌, ◌≢◌, refl, Bool, true, false, Option, some, [], ◌∷◌, arith, occurs,
}
use cop4610_project.Elevator.Types.{State, offline, Store}
use cop4610_project.Elevator.Thread.{run_elevator}
use cop4610_project.Elevator.Requests.{start_elevator, stop_elevator, issue_request}
use cop4610_project.Elevator.Invariant.{StoreOk}
use cop4610_project.Elevator.System.{System, Steps}
use cop4610_project.Elevator.System.Safety.{Reach-SystemOk}
use cop4610_project.Elevator.System.Sample.{
  loiterer, loitering, loitering-Reach, result, zeroed, queued, riding, riding-Reach,
}
use cop4610_project.Base.{length, ◌<◌, ◌++◌, none, inr}
use cop4610_project.Elevator.System.Guarantees.{idle-BlocksOk}
use cop4610_project.Elevator.Proc.{ProcFile, Opened, elevator_open, elevator_read, print_stats}
use cop4610_project.Elevator.Proc.Size.{print_stats_fits}
use cop4610_project.Elevator.Proc.Reading.{interrupted, fresh_file, open_and_read}
use cop4610_project.Elevator.Kernel.{Answer, Kernel, elevator_init, elevator_exit}
use cop4610_project.Elevator.Kernel.Lifecycle.{IsUnlinked, exit_unlinks, init_outcomes}
use cop4610_project.Elevator.Progress.Delivery.{rounds}
use cop4610_project.Elevator.Progress.Blocked.{bottom_is_blocked}
use cop4610_project.Elevator.Progress.Interleaved.{Freed, goes_on, delivered_in_time}
use cop4610_project.Elevator.Progress.Finishing.{everybody_is_brought}
use cop4610_project.Elevator.Invariant.{aboard}
use native.Mathlib.Decide.{ℕ_discrete}
use std.Equiv.{IsEquiv}
use cop4610_project.Elevator.Progress.Restarting.{stopped_and_restarted}
use mathlib.Core.Option.{some-injective}
use cop4610_project.Elevator.Proc.SharedBuffer.{SharedFile, open_shared, release_shared, Uses}
use cop4610_project.Elevator.Proc.Sharing.{openings_overlap}
use cop4610_project.Elevator.Invariant.Arguments.{passenger_of, passenger_of-IsEquiv}
use cop4610_project.Elevator.Progress.Stopping.{stop_elevator-stops}
use cop4610_project.Elevator.Invariant.Advancing.{SomebodyWaits}
use cop4610_project.Base.{if◌then◌else◌, ◌⊎◌, All, sym, subst, ◌+◌, ◌*◌}
use cop4610_project.Elevator.Invariant.Advancing.{NobodyWaits, NobodyRides}
use cop4610_project.Elevator.Service.Measures.{queued as waiting_sum}
use cop4610_project.Elevator.Progress.Standstill.{stop_is_final}
use cop4610_project.Elevator.SectionExamples.{
  queued_blocks, riding_blocks, queued-StoreOk, riding-StoreOk,
}

-- Eighteen second sections from there, with the bell hop aboard.
abbrev later : System
later = (goes_on 18 riding-Reach refl).0

delivered_in_time_example : Freed 64 riding later
unfolding result occurs
delivered_in_time_example =
    delivered_in_time 64 4 zeroed riding-Reach (inr (λ e. omega (arith, e))) (omega arith) (λ e. cc)
      (omega arith) (goes_on 18 riding-Reach refl).1
      (omega (arith, (goes_on 18 riding-Reach refl).2))

queued_elsewhere : (i : ℕ) → i < 10 → All (λ p. p.s_floor ≢ p.d_floor) (queued.store.b.f i).waiting
unfolding result
queued_elsewhere i li = elim (ℕ_discrete i 0) [
  | yes here ↦
      subst (λ k. All (λ p. p.s_floor ≢ p.d_floor) (queued.store.b.f k).waiting) (sym here)
        ((λ e. omega (arith, e)), tt)
  | no away ↦
      let nobody : (queued.store.b.f i).waiting ≡ [] = ground (arith, away) in
      subst (All (λ p. p.s_floor ≢ p.d_floor)) (sym nobody) tt
]

bell_hop_waits : (queued.store.b.f 0).waiting ≢ []
unfolding result
bell_hop_waits e = cc

everybody_is_brought_example :
    (n : ℕ) × (n
      ≤ 38 * waiting_sum (λ p. 1) queued.store.b + 19 * aboard (λ p. 1) queued.store.b.e.p)
    × (m' : Store) × (run_elevator (rounds n) queued.store ≡ some m')
    × StoreOk queued_blocks m'
    × NobodyWaits m'.b
    × NobodyRides m'.b.e
unfolding result
everybody_is_brought_example =
    everybody_is_brought queued.store queued-StoreOk refl (λ e. cc) queued_elsewhere

stopped_and_restarted_example :
    (k : ℕ) × (k ≤ 18)
    × (closed : Store) × (run_elevator (rounds k) (stop_elevator true queued.store).0 ≡ some closed)
    × (closed.b.e.status ≡ offline)
    × NobodyRides closed.b.e
    × ((start_elevator true closed).1 ≡ 0)
    × (n : ℕ) × (n ≤ 38 * waiting_sum (λ p. 1) queued.store.b)
    × (m' : Store) × (run_elevator (rounds n) (start_elevator true closed).0 ≡ some m')
    × StoreOk queued_blocks m'
    × NobodyWaits m'.b
    × NobodyRides m'.b.e
unfolding result
stopped_and_restarted_example =
    stopped_and_restarted queued.store queued-StoreOk refl (λ e. cc)
      (0, omega arith, bell_hop_waits) queued_elsewhere

-- The elevator in service, with nobody in the building.
abbrev quiet : System
quiet = record queued {
  store = record {
    b = record zeroed { e = record (zeroed.e) { next = 1; direction = 1 } };
    live = λ a. false;
  };
}

stop_is_final_example :
    let t : System = record quiet { store = (stop_elevator true quiet.store).0 } in
    (t.store.b.e.status ≢ offline)
    × ((acquired : Bool) → start_elevator acquired t.store ≡ (t.store, if acquired then 1 else 0))
    × ((acquired : Bool) → stop_elevator acquired t.store ≡ (t.store, if acquired then 1 else 0))
    × ((acquired : Bool) (block : Option ℕ) (p_type s_floor d_floor : ℕ)
        → issue_request acquired block p_type s_floor d_floor t.store ≡ some (t.store, 1))
stop_is_final_example =
    stop_is_final {signals = true} quiet
      (record quiet { store = (stop_elevator true quiet.store).0 }) refl (λ e. cc) (omega arith)
      (λ i li. refl) (λ i li. refl) refl Steps.here

-- The shutdown is asked for while the bell hop rides.
stop_elevator-stops_example :
    ((stop_elevator true riding.store).1 ≡ 0)
    × (n : ℕ) × (n ≤ 18)
    × (m' : Store) × (run_elevator (rounds n) (stop_elevator true riding.store).0 ≡ some m')
    × StoreOk riding_blocks m'
    × NobodyRides m'.b.e
    × ((a d : ℕ) → d < 10 → 0 < occurs (λ q. q.node) a (riding.store.b.e.p d) → m'.live a ≡ false)
    × ((i : ℕ) → (m'.b.f i).waiting ≡ (riding.store.b.f i).waiting)
    × (((m'.b.e.status ≡ offline) × SomebodyWaits riding.store.b)
        ⊎ ((m'.b.e.status ≡ State.idle) × NobodyWaits riding.store.b))
unfolding result
stop_elevator-stops_example = stop_elevator-stops riding.store riding-StoreOk refl (λ e. cc)

passenger_of-IsEquiv_example : IsEquiv (passenger_of riding.store 128)
unfolding result
passenger_of-IsEquiv_example = passenger_of-IsEquiv riding.store 128 refl

-- A file that nobody has open.
abbrev closed_file : SharedFile
closed_file = record { message = none; texts = λ x. []; live = λ x. false; read_p = false }

other_block : (open_shared (some 64) closed_file).live 128 ≡ false
unfolding open_shared
other_block = refl

openings_overlap_example :
    let both = open_shared (some 128) (open_shared (some 64) closed_file) in
    ((t : SharedFile) → Uses true both t → t.live 64 ≡ true)
    × ((c : ℕ) (t u v : SharedFile)
        → some 128 ≡ some c
        → Uses false both t
        → release_shared t ≡ some u
        → Uses false u v
        → release_shared v ≡ none)
openings_overlap_example = openings_overlap closed_file 64 (some 128) refl (λ x e.
    subst (λ y. (open_shared (some 64) closed_file).live y ≡ false) (some-injective 128 x e)
      other_block)

print_stats_fits_example : length (print_stats riding.store.b) < 1024
print_stats_fits_example = print_stats_fits riding.store.b

open_and_read_example :
    (elevator_open true (interrupted 2 ++ true ∷ []) riding.store.b
      ≡ Opened.ready (fresh_file riding.store.b))
    × (elevator_open false (interrupted 2 ++ true ∷ []) riding.store.b ≡ Opened.faulted)
    × ((file : ProcFile) × (elevator_read 16 (fresh_file riding.store.b)
          ≡ some (file, print_stats riding.store.b, length (print_stats riding.store.b)))
        × (elevator_read 4096 file ≡ some (fresh_file riding.store.b, [], 0)))
open_and_read_example = open_and_read 2 [] riding.store.b 16 4096

-- The module before it is loaded.
abbrev unloaded : Kernel
unloaded = record {
  stubs = record { issue = false; start = false; stop = false };
  proc_entry = false;
  thread = false;
  store = record { live = λ a. false; b = zeroed };
}

-- The module in service, with a passenger aboard and no call under way.
abbrev loaded : Kernel
loaded = record {
  stubs = record { issue = true; start = true; stop = true };
  proc_entry = true;
  thread = true;
  store = riding.store;
}

init_outcomes_example :
    let ready = elevator_init true none unloaded in
    let no_entry = elevator_init false none unloaded in
    let no_thread = elevator_init true (some 12) unloaded in
    (ready.1 ≡ Answer.value 0)
    × (ready.0.proc_entry ≡ true)
    × (ready.0.thread ≡ true)
    × (ready.0.stubs ≡ record { issue = true; start = true; stop = true })
    × StoreOk (λ a. 0) ready.0.store
    × (no_entry.1 ≡ Answer.enomem)
    × (no_entry.0.proc_entry ≡ false)
    × (no_entry.0.stubs ≡ record { issue = true; start = true; stop = true })
    × (no_thread.1 ≡ Answer.thread_error 12)
    × (no_thread.0.proc_entry ≡ false)
    × (no_thread.0.stubs ≡ record { issue = true; start = true; stop = true })
init_outcomes_example = init_outcomes unloaded 12 refl

exit_unlinks_example :
    (k' : Kernel) × (elevator_exit loaded ≡ some k')
    × IsUnlinked k'
    × (k'.proc_entry ≡ false)
    × (k'.thread ≡ false)
    × ((a : ℕ) → k'.store.live a ≡ false)
exit_unlinks_example = exit_unlinks loaded (idle-BlocksOk riding-Reach refl)

bottom_is_blocked_example :
    (m' : Store) × (run_elevator ((true, true) ∷ (false, true) ∷ []) loitering.store ≡ some m')
    × ((m'.b.f 0).waiting ≡ loiterer ∷ [])
unfolding result
bottom_is_blocked_example =
    bottom_is_blocked ((true, true) ∷ (false, true) ∷ []) loitering.store loiterer []
      ((Reach-SystemOk loitering-Reach).2.store) refl refl (λ h. refl)
