-- ===== src/Threads/Opening.antt =====
-- thread_proc_open of 06_threading_race_condition/thread.c and 07_threading_and_locking/thread.c, for
-- whatever values the process meets in the counters.
use cop4610_project.Base.{
  ℕ, zero, suc, ◌+◌, Bool, true, if◌then◌else◌, Option, none, some, ◌>>=◌, ◌++◌, Text, codes,
  minus_one,
}
use cop4610_project.Hello.{print_into}
use cop4610_project.Threads.{cnt_size, cycles_header, cycles_line}
use cop4610_project.Threads.Device.{Device, enomem, kmalloc, kfree}

abbrev pub entry_size : ℕ
entry_size = 10000

-- The loop from counter `i`, for `n` counters, each through the second buffer: `value i` is what the
-- process reads from counter `i`. A text that is too long for its buffer is a fault.
unfoldable pub print_counters : (n i : ℕ) → (value : ℕ → ℕ) → Text → Option Text
print_counters zero i value message = some message
print_counters (suc n) i value message = do
  buf ← print_into entry_size (cycles_line (value i))
  longer ← print_into entry_size (message ++ buf)
  print_counters n (i + 1) value longer

unfoldable pub print_cycles : (id : ℕ) → (value : ℕ → ℕ) → Option Text
unfolding print_counters
print_cycles id value = do
  header ← print_into entry_size (cycles_header id)
  message ← print_counters cnt_size 0 value header
  print_into entry_size (message ++ codes "\n")

-- What one opening meets: the results of kmalloc for `buf` and for `message`, whether it gets the lock,
-- and the values of the counters.
pub record Opening : Type 0 where
  pub buf : Option ℕ
  pub message : Option ℕ
  pub acquired : Bool
  pub value : ℕ → ℕ

-- thread_proc_open with the lock. Without the lock it prints -1 for every counter, and `buf` is not
-- tested: to print into NULL is a fault.
unfoldable pub locked_open : {P : Type 0} → (P → ℕ) → Opening → Device P → Option (Device P × ℕ)
unfolding kmalloc print_cycles
locked_open id_of o d =
    let d1 = kmalloc o.buf (record d { read_p = true }) in
    elim o.message [
      | none ↦ some (record d1 { message = none }, enomem)
      | some a ↦ elim o.buf [
        | none ↦ none
        | some b ↦ do
          text ← print_cycles (id_of d.thread1) (if o.acquired then o.value else λ i. minus_one)
          some (record (kmalloc (some a) d1) { message = some (a, text) }, 0)
      ]
    ]

-- thread_proc_open without a lock.
unfoldable pub race_open : {P : Type 0} → (P → ℕ) → Opening → Device P → Option (Device P × ℕ)
unfolding kmalloc kfree print_cycles
race_open id_of o d =
    let d1 = kmalloc o.buf (record d { read_p = true }) in
    elim o.buf [
      | none ↦ some (d1, enomem)
      | some b ↦ elim o.message [
        | none ↦ do d2 ← kfree b d1; some (record d2 { message = none }, enomem)
        | some a ↦ do
          text ← print_cycles (id_of d.thread1) o.value
          some (record (kmalloc (some a) d1) { message = some (a, text) }, 0)
      ]
    ]
