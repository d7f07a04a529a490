-- ===== src/Timer/Examples.antt =====
-- The theorems on the timer, at times that are small enough to follow.
use cop4610_project.Base.{
  ℕ, ◌+◌, ◌-◌, ◌≡◌, true, false, if◌then◌else◌, ltb, some, length, ◌++◌, none,
}
use cop4610_project.Timer.{Timespec, Timer, timer_init}
use cop4610_project.Timer.Reading.{visit, current_line, elapsed_line, visits_show_elapsed}

-- A difference of times as the kernel computes it, where the second is the earlier one.
abbrev difference : Timespec → Timespec → Timespec
difference a b =
    if ltb a.tv_nsec b.tv_nsec
    then record { tv_sec = a.tv_sec - b.tv_sec - 1; tv_nsec = a.tv_nsec + 1000000000 - b.tv_nsec }
    else record { tv_sec = a.tv_sec - b.tv_sec; tv_nsec = a.tv_nsec - b.tv_nsec }

abbrev at : ℕ → ℕ → Timespec
at s n = record { tv_sec = s; tv_nsec = n }

abbrev fresh : Timer
fresh = record {
  curr_t = at 0 0;
  prev_t = at 0 0;
  message = none;
  read_p = false;
  called = false;
  proc_entry = false;
}

visits_show_elapsed_example :
    (first : Timer) × (second : Timer) × (visit difference
        (at 7 900000000)
        4096
        4096
        (timer_init true fresh).0
      ≡ some (first, current_line (at 7 900000000), length (current_line (at 7 900000000))))
    × (visit difference (at 9 100000000) 4096 4096 first
        ≡ some (
          second,
          current_line (at 9 100000000) ++ elapsed_line (at 1 200000000),
          length (current_line (at 9 100000000) ++ elapsed_line (at 1 200000000)),
        ))
visits_show_elapsed_example =
    visits_show_elapsed difference fresh (at 7 900000000) (at 9 100000000) 4096 4096
