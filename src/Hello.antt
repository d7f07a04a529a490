-- ===== src/Hello.antt =====
-- course_materials/Project2_Examples/02_procfs/hello_proc.c: a proc file that counts its openings.
pub mod Overrun
use cop4610_project.Base.{
  ℕ, ◌+◌, ◌<◌, Bool, true, false, not, if◌then◌else◌, Option, none, some, List, [], ◌++◌, Text,
  codes, show_int, length, add32, ltb,
}

abbrev pub entry_size : ℕ
entry_size = 20

-- The variables of the module. The text is none where `message` is NULL.
pub record Hello : Type 0 where
  pub message : Option Text
  pub read_p : Bool
  pub counter : ℕ
  pub proc_entry : Bool

pub data Outcome : Type 0 where
  done enomem : Outcome

-- sprintf into a buffer of `size` bytes, with its final zero: `none` where it writes past the end.
unfoldable pub print_into : (size : ℕ) → Text → Option Text
print_into size text = if ltb (length text) size then some text else none

unfoldable pub hello_text : ℕ → Text
hello_text n = codes "Hello World! Counter: " ++ show_int n ++ codes "\n"

-- `got` says whether kmalloc gave the buffer.
unfoldable pub hello_proc_open : (got : Bool) → Hello → Option (Hello × Outcome)
hello_proc_open got h =
    if got
    then elim (print_into entry_size (hello_text (add32 h.counter 1))) [
      | none ↦ none
      | some text ↦ some (
        record h { read_p = true; counter = add32 h.counter 1; message = some text },
        Outcome.done,
      )
    ]
    else some (record h { read_p = true; message = none }, Outcome.enomem)

-- strlen of NULL is a fault; the size that was asked for is not looked at.
unfoldable pub hello_proc_read : Hello → Option (Hello × Text × ℕ)
hello_proc_read h = elim h.message [
  | none ↦ none
  | some text ↦
      let read_p = not h.read_p in
      some (
        if read_p
        then (record h { read_p = read_p }, [], 0)
        else (record h { read_p = read_p }, text, length text))
]

unfoldable pub hello_proc_release : Hello → Hello
hello_proc_release h = record h { message = none }

unfoldable pub hello_init : (created : Bool) → Hello → Hello × Outcome
hello_init created h =
    if created
    then (record h { counter = 0; proc_entry = true }, Outcome.done)
    else (record h { counter = 0; proc_entry = false }, Outcome.enomem)

unfoldable pub hello_exit : Hello → Hello
hello_exit h = record h { proc_entry = false }
