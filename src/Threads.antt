-- ===== src/Threads.antt =====
-- course_materials/Project2_Examples/07_threading_and_locking/thread.c: a kernel thread that counts
-- twenty counters up, under a lock, and a process that prints them.
pub mod Counting
pub mod Locking
pub mod Racing
pub mod Sleeping
pub mod Device
pub mod Opening
pub mod Fitting
pub mod Life
pub mod Leaking
pub mod Lasting
pub mod Overlapping
mod Visitors
mod Examples
use cop4610_project.Base.{
  ℕ, zero, suc, ◌+◌, ◌<◌, ◌≡◌, ◌≢◌, Bool, true, false, List, [], ◌∷◌, ◌++◌, Text, codes, show_int,
  add32, update,
}

abbrev pub cnt_size : ℕ
cnt_size = 20

-- Where thread_run stands: at the head of its loop, in the loop under the lock before counter `i`, or
-- returned.
pub data Runner : Type 0 where
  head returned : Runner
  counting : ℕ → Runner

-- Where thread_proc_open stands: before it or after the process has closed the file, in its loop
-- before counter `i` with what it printed, or at its end with the whole text.
pub data Reader : Type 0 where
  away : Reader
  printing : ℕ → Text → Reader
  printed : Text → Reader

-- struct thread_parameter, the state of its mutex, and the two that use it.
pub record ThreadParameter : Type 0 where
  pub id : ℕ
  pub cnt : ℕ → ℕ
  pub locked : Bool
  pub runner : Runner
  pub reader : Reader

unfoldable pub cycles_header : ℕ → Text
cycles_header id = codes "Thread " ++ show_int id ++ codes " has cycled this many times:\n"

unfoldable pub cycles_line : ℕ → Text
cycles_line n = show_int n ++ codes "\n"

-- thread_init_parameter, for the first thread of the module: `id` is a static that starts at 1.
unfoldable pub thread_init_parameter : ThreadParameter → ThreadParameter
thread_init_parameter p = record {
  id = 1;
  cnt = λ i. 0;
  locked = false;
  runner = Runner.head;
  reader = Reader.away;
}

-- One access to shared memory, of the thread or of the process that reads, where no lock is
-- interrupted. mutex_lock_interruptible waits until the mutex is free.
pub data Move : ThreadParameter → ThreadParameter → Type 0 where
  run_lock :
      {p : ThreadParameter}
      → p.runner ≡ Runner.head
      → p.locked ≡ false
      → Move p (record p { locked = true; runner = Runner.counting 0 })
  count :
      {p : ThreadParameter} (i : ℕ)
      → p.runner ≡ Runner.counting i
      → i < cnt_size
      → Move p
          (record p { cnt = update p.cnt i (add32 (p.cnt i) 1); runner = Runner.counting (i + 1) })
  run_unlock :
      {p : ThreadParameter}
      → p.runner ≡ Runner.counting cnt_size
      → Move p (record p { locked = false; runner = Runner.head })
  stop :
      {p : ThreadParameter}
      → p.runner ≡ Runner.head
      → Move p (record p { runner = Runner.returned })
  open_lock :
      {p : ThreadParameter}
      → p.reader ≡ Reader.away
      → p.locked ≡ false
      → Move p (record p { locked = true; reader = Reader.printing 0 (cycles_header p.id) })
  print :
      {p : ThreadParameter} (i : ℕ) (text : Text)
      → p.reader ≡ Reader.printing i text
      → i < cnt_size
      → Move p (record p { reader = Reader.printing (i + 1) (text ++ cycles_line (p.cnt i)) })
  open_unlock :
      {p : ThreadParameter} (text : Text)
      → p.reader ≡ Reader.printing cnt_size text
      → Move p (record p { locked = false; reader = Reader.printed (text ++ codes "\n") })
  release :
      {p : ThreadParameter} (text : Text)
      → p.reader ≡ Reader.printed text
      → Move p (record p { reader = Reader.away })

pub data Runs : ThreadParameter → Type 0 where
  begin : (p : ThreadParameter) → Runs (thread_init_parameter p)
  next : {p q : ThreadParameter} → Runs p → Move p q → Runs q
