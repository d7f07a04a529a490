-- ===== src/Programs.antt =====
-- The test programs of part3/elevator/test: wrappers.h, driver.c, producer.c and consumer.c.
pub mod Accepted
pub mod Driving
pub mod Producing
pub mod Consuming
mod Examples
use cop4610_project.Base.{
  ℕ, zero, suc, ◌+◌, ◌-◌, ◌*◌, ◌%◌, ◌^◌, Bool, true, false, ◌==◌, ◌&&◌, if◌then◌else◌, Option, none,
  some, ◌>>=◌, List, [], ◌∷◌, ◌++◌, Text, codes, show_int, minus_one,
}
use cop4610_project.Elevator.Kernel.{
  Answer, value, Kernel, sys_issue_request, sys_start_elevator, sys_stop_elevator,
}

-- What one call meets in the kernel: whether it gets the lock, and what kmalloc returns.
pub record Turn : Type 0 where
  pub acquired : Bool
  pub block : Option ℕ

-- `syscall` of the C library, as the `int` that the wrappers make of it: an error number becomes -1.
abbrev pub syscall_result : Answer → ℕ
syscall_result (value v) = v % 2 ^ 32
syscall_result _ = minus_one

-- The wrappers; `none` is a fault in the kernel.
unfoldable pub issue_request_wrapper : Turn → (type start dest : ℕ) → Kernel → Option (Kernel × ℕ)
issue_request_wrapper turn type start dest k = do
  (k', answer) ← sys_issue_request turn.acquired turn.block type start dest k
  some (k', syscall_result answer)

unfoldable pub start_elevator_wrapper : Turn → Kernel → Kernel × ℕ
start_elevator_wrapper turn k =
    let (k', answer) = sys_start_elevator turn.acquired k in (k', syscall_result answer)

unfoldable pub stop_elevator_wrapper : Turn → Kernel → Kernel × ℕ
stop_elevator_wrapper turn k =
    let (k', answer) = sys_stop_elevator turn.acquired k in (k', syscall_result answer)

-- The body of the loop of driver.c: four calls, which meet the turns 4 * i to 4 * i + 3.
unfoldable pub driver_round : (ℕ → Turn) → ℕ → Kernel → Option Kernel
driver_round turns i k = do
  (k1, r1) ← issue_request_wrapper (turns (4 * i)) 1 i ((i + 1) * 2) k
  (k2, r2) ← issue_request_wrapper (turns (4 * i + 1)) 2 i ((i + 1) * 2) k1
  (k3, r3) ← issue_request_wrapper (turns (4 * i + 2)) 3 i ((i + 1) * 2) k2
  (k4, r4) ← issue_request_wrapper (turns (4 * i + 3)) 4 i ((i + 1) * 2) k3
  some k4

-- The loop, from `i` for `n` rounds.
unfoldable pub driver_loop : (n : ℕ) → (ℕ → Turn) → ℕ → Kernel → Option Kernel
driver_loop zero turns i k = some k
driver_loop (suc n) turns i k = do k' ← driver_round turns i k; driver_loop n turns (i + 1) k'

-- `main` of driver.c: the kernel after it, its output, and its exit code.
unfoldable pub driver_main : (argc : ℕ) → (ℕ → Turn) → Kernel → Option (Kernel × Text × ℕ)
driver_main argc turns k =
    if argc == 1
    then (do k' ← driver_loop 3 turns 0 k; some (k', [], 0))
    else some (k, codes "Too many arguments lol\n", minus_one)

-- rnd of producer.c on the result `r` of rand; all numbers are small and not negative.
unfoldable pub rnd : (r min max : ℕ) → ℕ
rnd r min max = r % (max - min + 1) + min

-- The do-while loop of producer.c, on the results of rand: the destination, or `none` while every
-- result gave the start.
unfoldable pub draw_dest : (start : ℕ) → List ℕ → Option ℕ
draw_dest start [] = none
draw_dest start (r ∷ rands) =
    let rest = draw_dest start rands in
    let dest = rnd r 1 10 in if dest == start then rest else some dest

unfoldable pub producer_text : (type start dest ret : ℕ) → Text
producer_text type start dest ret =
    codes "Issue ("
    ++ (show_int type
        ++ (codes ", "
            ++ (show_int start
                ++ (codes ", "
                    ++ (show_int dest ++ (codes ") returned " ++ (show_int ret ++ codes "\n")))))))

-- How a program ends, if it does.
pub data Ended : Type 0 where
  returned : Kernel → Text → (code : ℕ) → Ended
  drawing : Ended
  kernel_fault : Ended

-- `main` of producer.c, on the results of rand after srand.
unfoldable pub producer_main : (argc : ℕ) → (r1 r2 : ℕ) → List ℕ → Turn → Kernel → Ended
unfolding rnd
producer_main argc r1 r2 rands turn k =
    if argc == 1
    then (let type = rnd r1 1 4 in
        let start = rnd r2 1 10 in
        elim (draw_dest start rands) [
          | none ↦ Ended.drawing
          | some dest ↦ elim (issue_request_wrapper turn type start dest k) [
            | none ↦ Ended.kernel_fault
            | some (k', ret) ↦ Ended.returned k' (producer_text type start dest ret) 0
          ]
        ])
    else Ended.returned k (codes "wrong number of args\n") minus_one

-- strcmp(a, b) == 0
pub same_text : Text → Text → Bool
same_text [] [] = true
same_text (c ∷ a) (d ∷ b) = c == d && same_text a b
same_text _ _ = false

-- `main` of consumer.c on its arguments, the name of the program first.
unfoldable pub consumer_main : List Text → Turn → Kernel → Kernel × Text × ℕ
unfolding same_text
consumer_main (name ∷ option ∷ []) turn k =
    if same_text option (codes "--start")
    then (let (k', ret) = start_elevator_wrapper turn k in
        (k', codes "Start elevator returned " ++ (show_int ret ++ codes "\n"), 0))
    else if same_text option (codes "--stop")
    then (let (k', ret) = stop_elevator_wrapper turn k in
        (k', codes "Stop elevator returned " ++ (show_int ret ++ codes "\n"), 0))
    else (k, [], minus_one)
consumer_main _ turn k = (k, codes "wrong number of args\n", minus_one)
