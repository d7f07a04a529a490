-- ===== src/Timer.antt =====
-- part2/my_xtime.c: a proc file with the current time and the time since the last read.
pub mod Reading
mod Examples
use cop4610_project.Base.{
  ℕ, ◌<◌, ◌+◌, ◌*◌, ◌^◌, ◌≡◌, ◌≤◌, ◌-◌, Bool, true, false, not, if◌then◌else◌, Option, none, some,
  [], ◌++◌, Text, codes, show_ulong, length,
}

-- struct timespec
pub record Timespec : Type 0 where
  pub tv_sec : ℕ
  pub tv_nsec : ℕ

-- The variables of the module. `called` is tested only for being 0.
pub record Timer : Type 0 where
  pub curr_t : Timespec
  pub prev_t : Timespec
  pub message : Option Text
  pub read_p : Bool
  pub called : Bool
  pub proc_entry : Bool

pub data Status : Type 0 where
  done : Status
  enomem : Status

-- myxtime_proc_open, where kmalloc gave a buffer or not
unfoldable pub proc_open : (block : Bool) → Timer → Timer × Status
proc_open block t =
    if block
    then (record t { read_p = true; message = some [] }, Status.done)
    else (record t { read_p = true; message = none }, Status.enomem)

unfoldable pub time_line : Text → Timespec → Text
time_line label t = label ++ show_ulong t.tv_sec ++ codes "." ++ show_ulong t.tv_nsec ++ codes "\n"

-- What myxtime_proc_read prints; `elapsed` is the difference to the last read.
unfoldable pub times : (called : Bool) → Timespec → Timespec → Text
times called now elapsed =
    time_line (codes "current time: ") now
    ++ (if called then time_line (codes "elapsed time: ") elapsed else [])

-- The kernel's subtraction of times.
module _ (timespec_sub : Timespec → Timespec → Timespec) where
  -- myxtime_proc_read at the time `now`, for a buffer of `size` bytes: the text that is copied to the
  -- user and the value returned. Printing into no buffer is a fault.
  unfoldable pub proc_read : (now : Timespec) (size : ℕ) → Timer → Option (Timer × Text × ℕ)
  proc_read now size t =
      let read_p = not t.read_p in
      if read_p then some (record t { read_p = read_p }, [], 0) else elim t.message [
        | none ↦ none
        | some old ↦
            let text = times t.called now (timespec_sub now t.prev_t) in
            some (
              record t {
                read_p = read_p;
                curr_t = now;
                prev_t = now;
                message = some text;
                called = true;
              },
              text,
              length text,
            )
      ]

unfoldable pub proc_release : Timer → Timer
proc_release t = record t { message = none }

-- myxtime_init; `created` says whether proc_create gave an entry.
unfoldable pub timer_init : (created : Bool) → Timer → Timer × Status
timer_init created t =
    if created
    then (record t { called = false; proc_entry = true }, Status.done)
    else (record t { called = false; proc_entry = false }, Status.enomem)

unfoldable pub timer_exit : Timer → Timer
timer_exit t = record t { proc_entry = false }
