-- ===== src/Threads/Sleeping.antt =====
-- course_materials/Project2_Examples/05_threading_with_blocking/thread.c: a thread that counts its
-- sleeps, and the text of its proc file.
use cop4610_project.Base.{
  ℕ, zero, suc, ◌+◌, ◌%◌, ◌^◌, ◌≤◌, ◌<◌, ◌≡◌, refl, Option, none, some, ◌>>=◌, true, ◌++◌, arith,
  Text, codes, show_int, length, length-append, add32,
}
use cop4610_project.Threads.Device.{Device, enomem, kmalloc}
use cop4610_project.Hello.{print_into}
use cop4610_project.Hello.Overrun.{print_into_overruns}

pub record Sleeper : Type 0 where
  pub id : ℕ
  pub cnt : ℕ

-- The loop of thread_run, for `n` rounds before it is stopped.
unfoldable pub sleep_rounds : ℕ → Sleeper → Sleeper
sleep_rounds zero p = p
sleep_rounds (suc n) p = sleep_rounds n (record p { cnt = add32 p.cnt 1 })

unfoldable pub sleeper_text : Sleeper → Text
sleeper_text p =
    codes "Thread " ++ show_int p.id ++ codes " has blocked " ++ show_int p.cnt ++ codes " times\n"

-- thread_init_parameter, for the first thread of the module.
unfoldable pub sleeper_init_parameter : Sleeper → Sleeper
sleeper_init_parameter p = record { id = 1; cnt = 0 }

-- thread_proc_open, on the result of kmalloc for the buffer of ENTRY_SIZE bytes; to print past its end
-- is a fault.
unfoldable pub sleeper_open : (block : Option ℕ) → Device Sleeper → Option (Device Sleeper × ℕ)
unfolding kmalloc
sleeper_open block d =
    let d1 = record d { read_p = true } in
    elim block [
      | none ↦ some (record d1 { message = none }, enomem)
      | some a ↦ do
        text ← print_into 20 (sleeper_text d.thread1)
        some (record (kmalloc (some a) d1) { message = some (a, text) }, 0)
    ]

sleep_rounds-cnt :
    (n : ℕ) (p : Sleeper) → p.cnt < 2 ^ 32 → (sleep_rounds n p).cnt ≡ (p.cnt + n) % 2 ^ 32
unfolding sleep_rounds
sleep_rounds-cnt zero p small = omega arith
sleep_rounds-cnt (suc n) p small =
    omega (arith, sleep_rounds-cnt n (record p { cnt = add32 p.cnt 1 }) (omega arith))

length-sleeper_text : (p : Sleeper) → 27 ≤ length (sleeper_text p)
unfolding sleeper_text
length-sleeper_text p = simp length-append (omega arith)

-- After `n` rounds the thread has counted to `n`, modulo 2 ^ 32. Whenever the file is opened with
-- memory for the text, the text is written past the end of its buffer; without memory the opening is
-- refused with -ENOMEM, and `message` is NULL.
pub sleeper_overruns :
    (n : ℕ) (d : Device Sleeper)
    → d.thread1.cnt ≡ 0
    → let later = record d { thread1 = sleep_rounds n d.thread1 } in
      (later.thread1.cnt ≡ n % 2 ^ 32)
      × ((a : ℕ) → sleeper_open (some a) later ≡ none)
      × (sleeper_open none later ≡ some (record later { read_p = true; message = none }, enomem))
unfolding sleeper_open
sleeper_overruns n d start =
    let q = sleep_rounds n d.thread1 in
    let long = length-sleeper_text q in
    (
      omega (arith, sleep_rounds-cnt n d.thread1 (omega arith)),
      λ a. rw (print_into_overruns 20 (sleeper_text q) (omega (arith, long))) refl,
      refl,
    )
