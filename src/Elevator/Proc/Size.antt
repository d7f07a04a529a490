-- ===== src/Elevator/Proc/Size.antt =====
-- The length of the text of the proc file.
use cop4610_project.Base.{
  ℕ, zero, suc, ◌+◌, ◌*◌, ◌≤◌, ◌<◌, inl, inr, Bool-cases, arith, codes, length, length-append,
  length-show_int, add32,
}
use cop4610_project.Elevator.Types.{State, idle, Elevator, Floors, Building}
use cop4610_project.Elevator.Checks.{state_name, get_state}
use cop4610_project.Elevator.Proc.{
  is_odd, half_of, load_line, head_lines, floor_line, floor_lines, print_stats,
}

length-state_name : (s : State) → length (codes (state_name s)) ≤ 7
unfolding state_name
length-state_name idle = omega arith
length-state_name _ = omega arith

length-load_line : (e : Elevator) → length (load_line e) ≤ 47
unfolding load_line
length-load_line e =
    let shown = length-show_int e.p_units in
    let half = length-show_int (half_of e.w_units) in
    elim (Bool-cases (is_odd e.w_units)) [
      | inl odd ↦ rw odd (simp length-append (omega (arith, shown, half)))
      | inr even ↦ rw even (simp length-append (omega (arith, shown, half)))
    ]

length-head_lines : (e : Elevator) → length (head_lines e) ≤ 113
unfolding head_lines get_state
length-head_lines e = simp length-append (
    omega (
      arith,
      length-state_name e.status,
      length-show_int (add32 e.current 1),
      length-show_int (add32 e.next 1),
      length-load_line e,
    ))

length-floor_line : (i : ℕ) (fl : Floors) → length (floor_line i fl) ≤ 84
unfolding floor_line
length-floor_line i fl =
    let a = length-show_int (i + 1) in
    let b = length-show_int fl.p_units in
    let c = length-show_int (half_of fl.w_units) in
    let d = length-show_int fl.serviced in
    elim (Bool-cases (is_odd fl.w_units)) [
      | inl odd ↦ rw odd (simp length-append (omega (arith, a, b, c, d)))
      | inr even ↦ rw even (simp length-append (omega (arith, a, b, c, d)))
    ]

length-floor_lines : (n : ℕ) (f : ℕ → Floors) → length (floor_lines n f) ≤ 84 * n
unfolding floor_lines
length-floor_lines zero f = omega arith
length-floor_lines (suc n) f = omega (
  arith,
  length-append (floor_line n (f n)) (floor_lines n f),
  length-floor_line n (f n),
  length-floor_lines n f,
)

-- Whatever the counters hold, printStats writes less than ENTRY_SIZE bytes, the final zero included:
-- the buffer of elevator_open never overflows.
pub print_stats_fits : (b : Building) → length (print_stats b) < 1024
unfolding print_stats
print_stats_fits b = omega (
  arith,
  length-append (head_lines b.e) (floor_lines 10 b.f),
  length-head_lines b.e,
  length-floor_lines 10 b.f,
)
