-- ===== src/Threads/Examples.antt =====
-- The theorems on the threads, at a run of the locked one and at a counter.
use cop4610_project.Base.{update, add32, ◌+◌}
use cop4610_project.Base.{
  ℕ, ◌<◌, ◌≤◌, subst, ◌≡◌, refl, true, false, Text, ◌++◌, codes, arith, length, zero, suc, ◌+◌,
}
use cop4610_project.Threads.{
  Runner, Reader, ThreadParameter, cycles_header, cycles_line, thread_init_parameter, Move, Runs,
}
use cop4610_project.Threads.Locking.{even_text, text_is_even}
use cop4610_project.Threads.Racing.{
  RaceParameter, race_init_parameter, RaceMove, RaceRuns, cycles, Drops, race_falls_slowly,
}

abbrev fresh : ThreadParameter
fresh = record { id = 1; cnt = λ i. 0; locked = false; runner = Runner.head; reader = Reader.away }

fresh-Runs : Runs fresh
unfolding thread_init_parameter
fresh-Runs = Runs.begin fresh

-- What the process has printed after `k` counters.
shown : ℕ → Text
shown zero = cycles_header 1
shown (suc k) = shown k ++ cycles_line 0

abbrev at_line : ℕ → ThreadParameter
at_line k = record fresh { locked = true; reader = Reader.printing k (shown k) }

at_line-Runs : (k : ℕ) → k ≤ 20 → Runs (at_line k)
unfolding shown
at_line-Runs zero le = Runs.next fresh-Runs (Move.open_lock refl refl)
at_line-Runs (suc k) le =
    let same : k + 1 ≡ suc k = omega arith in
    subst
      (λ j.
        Runs
          (record fresh { locked = true; reader = Reader.printing j (shown k ++ cycles_line 0) }))
      same (Runs.next (at_line-Runs k (omega arith)) (Move.print k (shown k) refl (omega arith)))

abbrev complete : ThreadParameter
complete = record fresh { reader = Reader.printed (shown 20 ++ codes "\n") }

complete-Runs : Runs complete
complete-Runs = Runs.next (at_line-Runs 20 (omega arith)) (Move.open_unlock (shown 20) refl)

text_is_even_example :
    (n : ℕ) × (shown 20 ++ codes "\n" ≡ even_text 1 n) × (length (shown 20 ++ codes "\n") < 10000)
text_is_even_example = text_is_even complete-Runs (shown 20 ++ codes "\n") refl

-- The process reads the first counter, the thread counts up the first two, and the process reads the
-- others.
abbrev race_start : RaceParameter
race_start = record { id = 1; cnt = λ i. 0; runner = Runner.head; reader = Reader.away }

race_start-RaceRuns : RaceRuns race_start
unfolding race_init_parameter
race_start-RaceRuns = RaceRuns.begin race_start

abbrev raced : RaceParameter
raced = record race_start {
  cnt = update (update (λ i. 0) 0 (add32 0 1)) (0 + 1) (add32 0 1);
  runner = Runner.counting (0 + 1 + 1);
}

-- What the process has printed after `k + 1` counters.
race_shown : ℕ → Text
race_shown zero = cycles_header 1 ++ cycles_line 0
race_shown (suc k) = race_shown k ++ cycles_line (raced.cnt (k + 1))

abbrev race_line : ℕ → RaceParameter
race_line k = record raced { reader = Reader.printing (k + 1) (race_shown k) }

race_line-RaceRuns : (k : ℕ) → k ≤ 19 → RaceRuns (race_line k)
unfolding race_shown
race_line-RaceRuns zero le =
    let opened = RaceRuns.next race_start-RaceRuns (RaceMove.open_file refl) in
    let one = RaceRuns.next opened (RaceMove.print 0 (cycles_header 1) refl (omega arith)) in
    let going = RaceRuns.next one (RaceMove.run refl) in
    let first = RaceRuns.next going (RaceMove.count 0 refl (omega arith)) in
    RaceRuns.next first (RaceMove.count (0 + 1) refl (omega arith))
race_line-RaceRuns (suc k) le =
    let same : k + 1 + 1 ≡ suc k + 1 = omega arith in
    subst
      (λ j. RaceRuns (record raced {
        reader = Reader.printing j (race_shown k ++ cycles_line (raced.cnt (k + 1)));
      }))
      same
      (RaceRuns.next (race_line-RaceRuns k (omega arith))
        (RaceMove.print (k + 1) (race_shown k) refl (omega arith)))

abbrev race_end : RaceParameter
race_end = record raced { reader = Reader.printed (race_shown 19 ++ codes "\n") }

race_end-RaceRuns : RaceRuns race_end
race_end-RaceRuns =
    RaceRuns.next (race_line-RaceRuns 19 (omega arith)) (RaceMove.opened (race_shown 19) refl)

race_falls_slowly_example :
    (last : ℕ) × (t : Text) × Drops 1 (cycles race_end-RaceRuns + 1) 20 last t
    × (race_shown 19 ++ codes "\n" ≡ t ++ codes "\n")
    × (length (race_shown 19 ++ codes "\n") < 10000)
race_falls_slowly_example = race_falls_slowly race_end-RaceRuns (race_shown 19 ++ codes "\n") refl
