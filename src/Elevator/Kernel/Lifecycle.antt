-- ===== src/Elevator/Kernel/Lifecycle.antt =====
-- Loading and unloading the module.
use cop4610_project.Base.{ℕ, ◌≡◌, refl, Bool, true, false, Option, none, some, arith}
use cop4610_project.Elevator.Exit.Freeing.{free_passengers-frees}
use cop4610_project.Elevator.Invariant.{BlocksOk, StoreOk}
use cop4610_project.Elevator.System.Start.{initial-StoreOk}
use cop4610_project.Elevator.Kernel.{
  Answer, Kernel, sys_issue_request, sys_start_elevator, sys_stop_elevator, elevator_init,
  elevator_exit,
}

-- Every system call of the module is answered by -ENOSYS and changes nothing.
abbrev pub IsUnlinked : Kernel → Type 0
IsUnlinked k =
    ((acquired : Bool) (block : Option ℕ) (t s d : ℕ)
      → sys_issue_request acquired block t s d k ≡ some (k, Answer.enosys))
    × ((acquired : Bool) → sys_start_elevator acquired k ≡ (k, Answer.enosys))
    × ((acquired : Bool) → sys_stop_elevator acquired k ≡ (k, Answer.enosys))

-- elevator_exit, from a state in which every allocated passenger block stands in one list, ends
-- without a fault. Then no block is allocated, the proc entry and the thread are gone, and the three
-- system calls return -ENOSYS and change nothing.
pub exit_unlinks :
    (k : Kernel)
    → BlocksOk (λ a. 0) k.store
    → (k' : Kernel) × (elevator_exit k ≡ some k')
      × IsUnlinked k'
      × (k'.proc_entry ≡ false)
      × (k'.thread ≡ false)
      × ((a : ℕ) → k'.store.live a ≡ false)
unfolding elevator_exit sys_issue_request sys_start_elevator sys_stop_elevator
exit_unlinks k ok =
    let (m', run, left, empty) = free_passengers-frees (λ a. 0) k.store ok in
    (
      record {
        stubs = record { issue = false; start = false; stop = false };
        proc_entry = false;
        thread = false;
        store = m';
      },
      rw run,
      (λ acquired block t s d. refl, λ acquired. refl, λ acquired. refl),
      refl,
      refl,
      λ a. ground (arith, left a),
    )

-- elevator_init, on memory where no passenger block is allocated. If the proc entry is created and
-- the thread starts, it returns 0, the entry, the thread and the three stubs are there, and the
-- invariant holds. If either fails, it returns the error and takes the entry back, but the three
-- stubs still point into the module, which is then unloaded.
pub init_outcomes :
    (k : Kernel) (n : ℕ)
    → k.store.live ≡ (λ a. false)
    → let ready = elevator_init true none k in
      let no_entry = elevator_init false none k in
      let no_thread = elevator_init true (some n) k in
      (ready.1 ≡ Answer.value 0)
      × (ready.0.proc_entry ≡ true)
      × (ready.0.thread ≡ true)
      × (ready.0.stubs ≡ record { issue = true; start = true; stop = true })
      × StoreOk (λ a. 0) ready.0.store
      × (no_entry.1 ≡ Answer.enomem)
      × (no_entry.0.proc_entry ≡ false)
      × (no_entry.0.stubs ≡ record { issue = true; start = true; stop = true })
      × (no_thread.1 ≡ Answer.thread_error n)
      × (no_thread.0.proc_entry ≡ false)
      × (no_thread.0.stubs ≡ record { issue = true; start = true; stop = true })
unfolding elevator_init
init_outcomes k n none_live = (
  refl,
  refl,
  refl,
  refl,
  rw none_live (initial-StoreOk k.store.b),
  refl,
  refl,
  refl,
  refl,
  refl,
  refl,
)
