-- ===== src/Elevator/Proc.antt =====
-- The proc file of the elevator: printStats of part3/elevator/elevator.h, and elevator_open,
-- elevator_read and elevator_release of part3/elevator/elevator.c.
pub mod Size
pub mod Reading
pub mod SharedBuffer
pub mod Sharing
use cop4610_project.Base.{
  ℕ, zero, suc, ◌+◌, ◌-◌, ◌/◌, ◌%◌, ◌^◌, Bool, true, false, not, ◌==◌, if◌then◌else◌, ltb, Option,
  none, some, List, [], ◌∷◌, ◌++◌, Text, codes, show_int, length, add32, ◌>>=◌,
}
use cop4610_project.Elevator.Types.{Elevator, Floors, Building}
use cop4610_project.Elevator.Checks.{get_state}

-- `x % 2 != 0` of an int: the lowest bit of the pattern, for both signs.
abbrev pub is_odd : ℕ → Bool
is_odd x = x % 2 == 1

-- `x / 2` of an int, towards zero
unfoldable pub half_of : ℕ → ℕ
half_of x = if ltb x (2 ^ 31) then x / 2 else (2 ^ 32 - (2 ^ 32 - x) / 2) % 2 ^ 32

unfoldable pub load_line : Elevator → Text
load_line e =
    if is_odd e.w_units
    then codes "Elevator Load (P/W): "
      ++ show_int e.p_units
      ++ codes "/"
      ++ show_int (half_of e.w_units)
      ++ codes ".5"
      ++ codes "\n"
    else codes "Elevator Load (P/W):  "
      ++ show_int e.p_units
      ++ codes "/"
      ++ show_int (half_of e.w_units)
      ++ codes "\n"

unfoldable pub head_lines : Elevator → Text
head_lines e =
    (codes "State: " ++ codes (get_state e) ++ codes "\n")
    ++ (codes "Current Floor: " ++ show_int (add32 e.current 1) ++ codes "\n")
    ++ (codes "Next Floor: " ++ show_int (add32 e.next 1) ++ codes "\n")
    ++ load_line e

unfoldable pub floor_line : ℕ → Floors → Text
floor_line i fl =
    codes "Floor "
    ++ show_int (i + 1)
    ++ codes ": "
    ++ show_int fl.p_units
    ++ codes "/"
    ++ show_int (half_of fl.w_units)
    ++ (if is_odd fl.w_units then codes ".5" else [])
    ++ codes " waiting (P/W) and "
    ++ show_int fl.serviced
    ++ codes " serviced\n"

-- The loop from floor `n - 1` down to floor 0.
unfoldable pub floor_lines : ℕ → (ℕ → Floors) → Text
floor_lines zero f = []
floor_lines (suc n) f = floor_line n (f n) ++ floor_lines n f

-- The text that printStats writes; it returns its length.
unfoldable pub print_stats : Building → Text
print_stats b = head_lines b.e ++ floor_lines 10 b.f

-- The variables behind the proc file: the buffer, and the flag that makes every second read end.
pub record ProcFile : Type 0 where
  pub message : Option Text
  pub read_p : Bool

-- elevator_open and its loop. `block` says whether kmalloc gave a buffer, and `locks` is the outcome
-- of each attempt to take the lock; where all of them are interrupted the loop goes on.
pub data Opened : Type 0 where
  ready : ProcFile → Opened
  faulted : Opened
  looping : Opened

unfoldable pub open_loop : (block : Bool) → List Bool → Building → Opened
open_loop block [] b = Opened.looping
open_loop block (acquired ∷ locks) b =
    let rest = open_loop block locks b in
    let done =
      if block
      then (if length (print_stats b) == 0
          then rest
          else Opened.ready (record { message = some (print_stats b); read_p = true }))
      else Opened.faulted in
    if acquired then done else rest

unfoldable pub elevator_open : (block : Bool) → List Bool → Building → Opened
elevator_open block locks b = open_loop block locks b

-- elevator_read for a buffer of `size` bytes: what is copied to the user, and the value returned.
-- The size is not looked at. Reading with no buffer is a fault.
unfoldable pub elevator_read : (size : ℕ) → ProcFile → Option (ProcFile × Text × ℕ)
elevator_read size file =
    let read_p = not file.read_p in
    let file' : ProcFile = record file { read_p = read_p } in
    if read_p then some (file', [], 0) else do text ← file.message; some (file', text, length text)

unfoldable pub elevator_release : ProcFile → ProcFile
elevator_release file = record file { message = none }
