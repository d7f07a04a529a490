-- ===== src/Hello/Overrun.antt =====
-- The length of the text against the size of the buffer.
use cop4610_project.Base.{
  ℕ, ◌≤◌, ◌≡◌, refl, true, false, none, some, arith, Text, length, length-append, add32,
}
use cop4610_project.Hello.{entry_size, Hello, Outcome, print_into, hello_text, hello_proc_open}

length-hello_text : (n : ℕ) → 23 ≤ length (hello_text n)
unfolding hello_text
length-hello_text n = simp length-append (omega arith)

pub print_into_overruns :
    (size : ℕ) (text : Text) → size ≤ length text → print_into size text ≡ none
unfolding print_into
print_into_overruns size text long = ground arith

-- Whatever the counter is, hello_proc_open with a buffer writes past the end of its ENTRY_SIZE bytes;
-- without one it returns -ENOMEM and counts nothing.
pub open_overruns :
    (h : Hello)
    → (hello_proc_open true h ≡ none)
      × ((h' : Hello) × (hello_proc_open false h ≡ some (h', Outcome.enomem))
          × (h'.counter ≡ h.counter))
unfolding hello_proc_open
open_overruns h =
    let n = add32 h.counter 1 in
    let long = length-hello_text n in
    (
      rw (print_into_overruns entry_size (hello_text n) (omega (arith, long))),
      (record h { read_p = true; message = none }, refl, refl),
    )
