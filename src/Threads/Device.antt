-- ===== src/Threads/Device.antt =====
-- What the three thread examples of course_materials/Project2_Examples share: the buffer of the proc
-- file with its read and release, and the init and exit of the module.
use cop4610_project.Base.{
  ℕ, ◌-◌, ◌^◌, Bool, true, false, not, if◌then◌else◌, Option, none, some, [], Text, length, update,
}

-- The variables of the module: `message`, NULL or the address of a block and the text in it, `read_p`,
-- and the parameter of the thread. `live` says which blocks are allocated.
pub record Device (P : Type 0) : Type 0 where
  pub message : Option (ℕ × Text)
  pub read_p : Bool
  pub live : ℕ → Bool
  pub proc_entry : Bool
  pub running : Bool
  pub thread1 : P

-- The pattern of -ENOMEM.
abbrev pub enomem : ℕ
enomem = 2 ^ 32 - 12

unfoldable pub kmalloc : {P : Type 0} → Option ℕ → Device P → Device P
kmalloc none d = d
kmalloc (some a) d = record d { live = update d.live a true }

-- `none` is a fault: the block is not allocated.
unfoldable pub kfree : {P : Type 0} → ℕ → Device P → Option (Device P)
kfree a d = if d.live a then some (record d { live = update d.live a false }) else none

-- What is copied to the process, and the result; strlen of NULL or of a freed block is a fault.
unfoldable pub thread_proc_read : {P : Type 0} → Device P → Option (Device P × Text × ℕ)
thread_proc_read d = elim d.message [
  | none ↦ none
  | some (a, text) ↦
      let read_p = not d.read_p in
      let toggled = record d { read_p = read_p } in
      if d.live a
      then some (if read_p then (toggled, [], 0) else (toggled, text, length text))
      else none
]

-- kfree of NULL does nothing; `message` keeps the address.
unfoldable pub thread_proc_release : {P : Type 0} → Device P → Option (Device P)
unfolding kfree
thread_proc_release d = elim d.message [ none ↦ some d | some (a, text) ↦ kfree a d ]

-- thread_init, where `created` says whether proc_create gave an entry, and `error` is the error of
-- kthread_run, if there is one; thread_init_parameter is an argument.
unfoldable pub thread_init :
    {P : Type 0}
    → (init_parameter : P → P) (created : Bool) (error : Option ℕ) → Device P
    → Device P × ℕ
thread_init init_parameter created error d =
    if created
    then (let d1 = record d { proc_entry = true; thread1 = init_parameter d.thread1 } in
        elim error [
          | none ↦ (record d1 { running = true }, 0)
          | some e ↦ (record d1 { proc_entry = false; running = false }, e)
        ])
    else (record d { proc_entry = false }, enomem)

-- mutex_destroy, in the module with the lock, changes none of these.
unfoldable pub thread_exit : {P : Type 0} → Device P → Device P
thread_exit d = record d { running = false; proc_entry = false }
