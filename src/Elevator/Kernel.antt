-- ===== src/Elevator/Kernel.antt =====
-- The module in the kernel: part3/SystemCalls, and link_syscalls, unlink_syscalls, initEThread,
-- elevator_init and elevator_exit of part3/elevator/elevator.c.
pub mod Lifecycle
use cop4610_project.Base.{ℕ, Bool, true, false, if◌then◌else◌, Option, none, some, ◌>>=◌}
use cop4610_project.Elevator.Types.{Store}
use cop4610_project.Elevator.Building.{init_elevator, init_building}
use cop4610_project.Elevator.Requests.{issue_request, start_elevator, stop_elevator}
use cop4610_project.Elevator.Exit.{free_passengers}

-- What a call into the kernel returns: a value, or an error number with its sign.
pub data Answer : Type 0 where
  value : ℕ → Answer
  enosys enomem : Answer
  thread_error : ℕ → Answer

-- The three STUB pointers: NULL, or the function of the module.
pub record Stubs : Type 0 where
  pub issue : Bool
  pub start : Bool
  pub stop : Bool

pub record Kernel : Type 0 where
  pub stubs : Stubs
  pub proc_entry : Bool
  pub thread : Bool
  pub store : Store

unfoldable pub link_syscalls : Kernel → Kernel
link_syscalls k = record k { stubs = record { issue = true; start = true; stop = true } }

unfoldable pub unlink_syscalls : Kernel → Kernel
unlink_syscalls k = record k { stubs = record { issue = false; start = false; stop = false } }

-- The system call issue_request; `none` is a fault.
unfoldable pub sys_issue_request :
    (acquired : Bool) (block : Option ℕ) (p_type s_floor d_floor : ℕ)
    → Kernel
    → Option (Kernel × Answer)
sys_issue_request acquired block p_type s_floor d_floor k =
    if k.stubs.issue
    then (do
      (m', v) ← issue_request acquired block p_type s_floor d_floor k.store
      some (record k { store = m' }, Answer.value v))
    else some (k, Answer.enosys)

unfoldable pub sys_start_elevator : (acquired : Bool) → Kernel → Kernel × Answer
sys_start_elevator acquired k =
    if k.stubs.start
    then (
      record k { store = (start_elevator acquired k.store).0 },
      Answer.value (start_elevator acquired k.store).1,
    )
    else (k, Answer.enosys)

unfoldable pub sys_stop_elevator : (acquired : Bool) → Kernel → Kernel × Answer
sys_stop_elevator acquired k =
    if k.stubs.stop
    then (
      record k { store = (stop_elevator acquired k.store).0 },
      Answer.value (stop_elevator acquired k.store).1,
    )
    else (k, Answer.enosys)

-- initEThread, where kthread_run gives a thread or an error number.
unfoldable pub init_e_thread : (error : Option ℕ) → Kernel → Kernel
init_e_thread none k = record k { thread = true }
init_e_thread (some n) k = record k { thread = false }

abbrev is_err : Option ℕ → Kernel → Kernel × Answer
is_err none k = (k, Answer.value 0)
is_err (some n) k = (record k { proc_entry = false }, Answer.thread_error n)

-- `created` says whether proc_create gave an entry.
unfoldable pub elevator_init : (created : Bool) (error : Option ℕ) → Kernel → Kernel × Answer
unfolding link_syscalls init_e_thread
elevator_init created error k =
    let linked = link_syscalls k in
    let b = init_building linked.store.b (init_elevator linked.store.b.e) in
    let ready : Kernel = record linked { store = record (linked.store) { b = b } } in
    if created
    then is_err error (init_e_thread error (record ready { proc_entry = true }))
    else (record ready { proc_entry = false }, Answer.enomem)

unfoldable pub elevator_exit : Kernel → Option Kernel
unfolding unlink_syscalls
elevator_exit k = do
  let stopped = unlink_syscalls (record k { thread = false })
  m' ← free_passengers stopped.store
  some (record stopped { store = m'; proc_entry = false })
