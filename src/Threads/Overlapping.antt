-- ===== src/Threads/Overlapping.antt =====
-- Two processes that have the file of a counting thread open at once.
use cop4610_project.Base.{
  ℕ, ◌≡◌, ◌≢◌, ◌⊎◌, inl, inr, Option-cases, refl, true, false, if◌then◌else◌, Option, none, some,
  ◌>>=◌, Text, update, minus_one,
}
use cop4610_project.Threads.Device.{Device, enomem, kfree, thread_proc_read, thread_proc_release}
use cop4610_project.Threads.Opening.{Opening, locked_open, race_open}
use cop4610_project.Threads.Fitting.{cycles_text, print_cycles_fit}
use cop4610_project.Threads.Life.{Opener}
use cop4610_project.Threads.Leaking.{update_hit}

-- Both open the file, and both close it.
unfoldable pub close_twice :
    {P : Type 0} → Opener P → (o1 o2 : Opening) → Device P → Option (Device P)
unfolding thread_proc_release
close_twice opener o1 o2 d = do
  (d1, code1) ← opener o1 d
  (d2, code2) ← opener o2 d1
  d3 ← thread_proc_release d2
  thread_proc_release d3

-- The first reads after the second has tried to open the file.
unfoldable pub read_after :
    {P : Type 0} → Opener P → (o1 o2 : Opening) → Device P → Option (Device P × Text × ℕ)
unfolding thread_proc_read
read_after opener o1 o2 d = do
  (d1, code1) ← opener o1 d
  (d2, code2) ← opener o2 d1
  thread_proc_read d2

-- What an opening with both buffers does, and one without the second.
record Overwrites {P : Type 0} (opener : Opener P) : Type 0 where
  with_memory :
      (o : Opening) (b a : ℕ) (d : Device P)
      → o.buf ≡ some b
      → o.message ≡ some a
      → (d' : Device P) × (text : Text) × (opener o d ≡ some (d', 0))
        × (d'.message ≡ some (a, text))
        × (d'.live a ≡ true)
  without :
      (o : Opening) (b : ℕ) (d : Device P)
      → o.buf ≡ some b
      → o.message ≡ none
      → (d' : Device P) × (opener o d ≡ some (d', enomem)) × (d'.message ≡ none)

module _ {P : Type 0} (opener : Opener P) (w : Overwrites opener) where
  close_twice-faults :
      (o1 o2 : Opening) (b1 a1 b2 a2 : ℕ) (d : Device P)
      → o1.buf ≡ some b1
      → o1.message ≡ some a1
      → o2.buf ≡ some b2
      → o2.message ≡ some a2
      → close_twice opener o1 o2 d ≡ none
  unfolding close_twice kfree
  close_twice-faults o1 o2 b1 a1 b2 a2 d h1 k1 h2 k2 =
      let (d1, t1, run1, m1, l1) = w.with_memory o1 b1 a1 d h1 k1 in
      let (d2, t2, run2, m2, l2) = w.with_memory o2 b2 a2 d1 h2 k2 in
      rw (run1, run2, m2, l2, update_hit d2.live a2 false) refl

  read_after-faults :
      (o1 o2 : Opening) (b1 a1 b2 : ℕ) (d : Device P)
      → o1.buf ≡ some b1
      → o1.message ≡ some a1
      → o2.buf ≡ some b2
      → o2.message ≡ none
      → read_after opener o1 o2 d ≡ none
  unfolding read_after
  read_after-faults o1 o2 b1 a1 b2 d h1 k1 h2 k2 =
      let (d1, t1, run1, m1, l1) = w.with_memory o1 b1 a1 d h1 k1 in
      let (d2, run2, m2) = w.without o2 b2 d1 h2 k2 in rw (run1, run2, m2) refl

module _ {P : Type 0} (id_of : P → ℕ) where
  locked-Overwrites : Overwrites (locked_open id_of)
  unfolding locked_open
  locked-Overwrites = record {
    with_memory = λ o b a d got_buf got.
        let value : ℕ → ℕ = if o.acquired then o.value else λ i. minus_one in
        let text = cycles_text (id_of d.thread1) value in
        let d' : Device P = record d {
          read_p = true;
          message = some (a, text);
          live = update (update d.live b true) a true;
        } in
        (
          d',
          text,
          rw (got_buf, got, print_cycles_fit (id_of d.thread1) value) refl,
          refl,
          update_hit (update d.live b true) a true,
        );
    without = λ o b d got_buf got.
        let d' : Device P = record d {
          read_p = true;
          message = none;
          live = update d.live b true;
        } in
        (d', rw (got_buf, got) refl, refl);
  }

  race-Overwrites : Overwrites (race_open id_of)
  unfolding race_open kfree
  race-Overwrites = record {
    with_memory = λ o b a d got_buf got.
        let text = cycles_text (id_of d.thread1) o.value in
        let d' : Device P = record d {
          read_p = true;
          message = some (a, text);
          live = update (update d.live b true) a true;
        } in
        (
          d',
          text,
          rw (got_buf, got, print_cycles_fit (id_of d.thread1) o.value) refl,
          refl,
          update_hit (update d.live b true) a true,
        );
    without = λ o b d got_buf got.
        let d' : Device P = record d {
          read_p = true;
          message = none;
          live = update (update d.live b true) b false;
        } in
        (d', rw (got_buf, got, update_hit d.live b true) refl, refl);
  }

-- What goes wrong with two processes at an opener.
abbrev pub Collides : {P : Type 0} → Opener P → (o1 o2 : Opening) → Device P → Type 0
Collides opener o1 o2 d =
    ((o2.message ≢ none) × (close_twice opener o1 o2 d ≡ none))
    ⊎ ((o2.message ≡ none) × (read_after opener o1 o2 d ≡ none))

-- Two processes that have the file open at once, the first with memory for its text: if the second
-- has memory too, the second of the two closings frees a block that is freed already; if it has none,
-- the first process reads through NULL. It is so with and without the lock.
pub overlap_faults :
    {P : Type 0} (id_of : P → ℕ) (o1 o2 : Opening) (b1 a1 b2 : ℕ) (d : Device P)
    → o1.buf ≡ some b1
    → o1.message ≡ some a1
    → o2.buf ≡ some b2
    → Collides (locked_open id_of) o1 o2 d × Collides (race_open id_of) o1 o2 d
overlap_faults id_of o1 o2 b1 a1 b2 d h1 k1 h2 = elim (Option-cases o2.message) [
  | inl no_memory ↦ (
    inr (
      no_memory,
      read_after-faults (locked_open id_of) (locked-Overwrites id_of) o1 o2 b1 a1 b2 d h1 k1 h2
          no_memory,
    ),
    inr (
      no_memory,
      read_after-faults (race_open id_of) (race-Overwrites id_of) o1 o2 b1 a1 b2 d h1 k1 h2
          no_memory,
    ),
  )
  | inr (a2, k2) ↦
      let some_memory : o2.message ≢ none = λ e. cc in
      (
        inl (
          some_memory,
          close_twice-faults (locked_open id_of) (locked-Overwrites id_of) o1 o2 b1 a1 b2 a2 d h1 k1
              h2 k2,
        ),
        inl (
          some_memory,
          close_twice-faults (race_open id_of) (race-Overwrites id_of) o1 o2 b1 a1 b2 a2 d h1 k1 h2
              k2,
        ),
      )
]
