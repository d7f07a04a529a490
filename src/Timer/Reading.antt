-- ===== src/Timer/Reading.antt =====
-- What the processes see that read the times, one after the other.
use cop4610_project.Base.{
  ℕ, ◌<◌, ◌+◌, ◌≡◌, ◌≤◌, ap, ◌∙◌, Bool-cases, inl, inr, Bool, true, Option, none, some, ◌++◌, arith,
  Text, codes, show_ulong, length, length-append, length-decimal, length-decimal_small, ◌>>=◌,
}
use mathlib.Core.List.{append-nil}
use native.Mathlib.Nat.{add-zero}
use cop4610_project.Timer.{
  Timespec, Timer, proc_open, time_line, times, proc_read, proc_release, timer_init,
}

-- A time whose nanoseconds are below one second.
pub record IsNormal (t : Timespec) : Type 0 where
  pub nsec : t.tv_nsec < 1000000000

abbrev pub current_line : Timespec → Text
current_line = time_line (codes "current time: ")

abbrev pub elapsed_line : Timespec → Text
elapsed_line = time_line (codes "elapsed time: ")

-- One process: open, a read, the read that finds the end, and release.
module _ (timespec_sub : Timespec → Timespec → Timespec) where
  unfoldable pub visit : Timespec → (size size' : ℕ) → Timer → Option (Timer × Text × ℕ)
  unfolding proc_open proc_read proc_release
  visit now size size' t =
      let (opened, status) = proc_open true t in
      do
        (t1, text, len) ← proc_read timespec_sub now size opened
        (t2, rest, zero_len) ← proc_read timespec_sub now size' t1
        some (proc_release t2, text ++ rest, len + zero_len)

  abbrev after : Timespec → Timer → Timer
  after now t = record t {
    read_p = true;
    message = none;
    curr_t = now;
    prev_t = now;
    called = true;
  }

  visit_lem :
      (now : Timespec) (size size' : ℕ) (t : Timer)
      → let text = times t.called now (timespec_sub now t.prev_t) in
        visit now size size' t ≡ some (after now t, text, length text)
  unfolding visit
  visit_lem now size size' t =
      rw (append-nil (times t.called now (timespec_sub now t.prev_t)), add-zero)

  -- After the module is loaded the first process that reads the file sees only the current time, and
  -- the one after it the current time and the difference to the time at which the first one read.
  pub visits_show_elapsed :
      (t : Timer) (one two : Timespec) (size size' : ℕ)
      → (first : Timer) × (second : Timer) × (visit one size size' (timer_init true t).0
          ≡ some (first, current_line one, length (current_line one)))
        × (visit two size size' first
            ≡ some (
              second,
              current_line two ++ elapsed_line (timespec_sub two one),
              length (current_line two ++ elapsed_line (timespec_sub two one)),
            ))
  unfolding timer_init times
  visits_show_elapsed t one two size size' =
      let loaded = (timer_init true t).0 in
      (
        after one loaded,
        after two loaded,
        visit_lem one size size' loaded
            ∙ ap (λ (x : Text). some (after one loaded, x, length x))
                (append-nil (current_line one)),
        visit_lem two size size' (after one loaded),
      )

length-time_line :
    (label : Text) (t : Timespec) → IsNormal t → length (time_line label t) ≤ length label + 31
unfolding time_line show_ulong
length-time_line label t ok =
    simp length-append
      (omega (arith, length-decimal 20 t.tv_sec, length-decimal_small 8 20 t.tv_nsec ok.nsec))

-- For times whose nanoseconds are below one second the text of a read takes less than ENTRY_SIZE
-- bytes, the final zero included: the buffer never overflows.
pub times_fit :
    (called : Bool) (now elapsed : Timespec)
    → IsNormal now
    → IsNormal elapsed
    → length (times called now elapsed) < 100
unfolding times
times_fit called now elapsed ok ok' =
    let one = length-time_line (codes "current time: ") now ok in
    let two = length-time_line (codes "elapsed time: ") elapsed ok' in
    elim (Bool-cases called) [
      | inl again ↦ rw again (simp length-append (omega (arith, one, two)))
      | inr first ↦ rw first (simp length-append (omega (arith, one)))
    ]
