-- ===== src/Elevator/Proc/Reading.antt =====
-- What a process sees that opens the proc file and reads it.
use cop4610_project.Base.{
  ℕ, zero, suc, ◌≤◌, ◌≡◌, refl, Bool, true, false, ◌==◌, some, List, [], ◌∷◌, ◌++◌, arith, length,
  length-append,
}
use cop4610_project.Elevator.Types.{Building}
use cop4610_project.Elevator.Proc.{
  ProcFile, Opened, open_loop, elevator_open, elevator_read, head_lines, floor_lines, print_stats,
}

-- `n` attempts that are interrupted
abbrev pub interrupted : ℕ → List Bool
interrupted zero = []
interrupted (suc n) = false ∷ interrupted n

-- The file just after it was opened: the text is ready, and the next read gives it.
abbrev pub fresh_file : Building → ProcFile
fresh_file b = record { message = some (print_stats b); read_p = true }

head_lines_some : (b : Building) → 7 ≤ length (head_lines b.e)
unfolding head_lines
head_lines_some b = omega arith

print_stats_some : (b : Building) → (length (print_stats b) == 0) ≡ false
unfolding print_stats
print_stats_some b =
    ground (arith, length-append (head_lines b.e) (floor_lines 10 b.f), head_lines_some b)

open_loop-ready :
    (n : ℕ) (more : List Bool) (b : Building)
    → open_loop true (interrupted n ++ true ∷ more) b ≡ Opened.ready (fresh_file b)
unfolding open_loop
open_loop-ready zero more b = rw (print_stats_some b)
open_loop-ready (suc n) more b = open_loop-ready n more b

open_loop-faulted :
    (n : ℕ) (more : List Bool) (b : Building)
    → open_loop false (interrupted n ++ true ∷ more) b ≡ Opened.faulted
unfolding open_loop
open_loop-faulted zero more b = refl
open_loop-faulted (suc n) more b = open_loop-faulted n more b

-- elevator_open tries again after every interrupted attempt and stops at the first lock it gets: with
-- a buffer the file then holds the text of the building, and without one the code writes through
-- NULL. Of two reads that follow, the first copies the whole text and returns its length, whatever
-- size was asked for, and the second returns 0 and makes the file ready to be read anew.
pub open_and_read :
    (n : ℕ) (more : List Bool) (b : Building) (size size' : ℕ)
    → (elevator_open true (interrupted n ++ true ∷ more) b ≡ Opened.ready (fresh_file b))
      × (elevator_open false (interrupted n ++ true ∷ more) b ≡ Opened.faulted)
      × ((file : ProcFile) × (elevator_read size (fresh_file b)
            ≡ some (file, print_stats b, length (print_stats b)))
          × (elevator_read size' file ≡ some (fresh_file b, [], 0)))
unfolding elevator_open elevator_read
open_and_read n more b size size' = (
  open_loop-ready n more b,
  open_loop-faulted n more b,
  (record { message = some (print_stats b); read_p = false }, refl, refl),
)
