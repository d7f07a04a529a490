-- ===== src/Lib.antt =====
-- The elevator of part3/elevator: a kernel module with one elevator in a building of ten floors, a
-- kernel thread that runs it, three system calls that start it, stop it and add passengers, and a proc
-- file that shows its state. Beside it the timer module of part2, the test programs that make
-- the calls, and the course examples, from which the elevator has its lists, its proc file, its thread
-- and its lock.
--
-- Parts and files.
--   Base             names of the libraries, C conditions, 32-bit integers, arrays of ten floors,
--                    lists as queues, results that may fault.
--   Elevator/Types   the types of part3/elevator/elevator.h (STATE, P_TYPE, passenger, elevator,
--                    floors, building) and its constants.
--   Elevator/Passengers, Elevator/Building, Elevator/Checks
--                    the functions of elevator.h: getPass, getWeight, pDirection, hasSpace, canFit;
--                    initElevator, initBuilding, addPass, delPass, movePass; getState, checkFloor,
--                    checkBuilding, checkElevator, find.
--   Elevator/Thread  runElevator of part3/elevator/elevator.c: `service` and `advance` are what its
--                    two critical sections do, `first_section` and `second_section` add the outcome
--                    of the lock, `run_elevator` is the loop.
--   Elevator/Requests  issue_request, start_elevator and stop_elevator of elevator.c.
--   Elevator/Exit    the loops of elevator_exit that free the passengers.
--   Elevator/Kernel  the module in the kernel: the stubs of part3/SystemCalls, link_syscalls and
--                    unlink_syscalls, initEThread, elevator_init and elevator_exit of elevator.c.
--   Elevator/Proc    printStats of elevator.h, elevator_open, elevator_read and elevator_release of
--                    elevator.c, for one process, and for many that share the buffer
--                    (SharedBuffer, Sharing).
--   Elevator/Invariant  the invariant, and for each loop, section and call what it does and that it
--                    keeps the invariant.
--   Elevator/System  the thread and the calls of any number of processes as steps that interleave,
--                    the reachable states, and what holds in them.
--   Elevator/Mutex   the thread and the calls interleaved at every access under the mutex: the accesses
--                    of the first section (Accesses, Beside), the machine as a system of whole
--                    sections (Atomic, Moves, Calls, Waiting, Acting, Sections), what is printed
--                    (Texts), that the mutex is released (Releasing, Unlocking), and interrupted
--                    locks (Interrupting, Overlapping).
--   Elevator/Progress  what happens over many rounds: the sweep (Sweep, Turning), delivery by the thread
--                    alone (Delivery) and between calls (Riding, Interleaved), the rounds until nobody
--                    is left (Working, Rounds, Emptying, Finishing), what a shutdown and a
--                    restart do (Closing, Stopping, Restarting), a blocked queue, and a standstill.
--   Elevator/Service  what the module promises, without lists, counters and locks: an abstract service
--                    whose crowds are lists of passengers up to their order (Crowds), and how it
--                    answers each step of the module (Boarding, Measures, Sections, Travelling, Showing,
--                    Calls, Refinement), the account of a run (Brought, Balance), and who boards as a
--                    plain function (Greedy).
--   Programs         part3/elevator/test: the wrappers and the three programs driver, producer and
--                    consumer (Accepted, Driving, Producing, Consuming), on the calls of Elevator/Kernel.
--   Timer            part2/my_xtime.c.
--   Animals          course_materials/Project2_Examples/04_lists/random_animals.c: the list, its
--                    totals and its proc file (Adding, Deleting, Showing).
--   Threads          07_threading_and_locking/thread.c beside it: a thread and a process that share
--                    twenty counters under a lock, as interleaved accesses (Counting, Locking); the
--                    same without a lock of 06_threading_race_condition/thread.c (Racing); the
--                    sleeping thread of 05_threading_with_blocking/thread.c (Sleeping); what the three
--                    files share word for word (Device), the openings of the first two with their
--                    failures (Opening, Fitting), and the modules from loading to unloading (Life,
--                    Leaking, Lasting, Overlapping).
--   Hello            02_procfs/hello_proc.c beside it, where a print past the buffer is a fault.
--   TestCall         03_syscall beside it: a system call with a stub, the module that fills the stub,
--                    and a program that makes the call (Reading, Echo).
--
-- How the code is modelled. An `int` is its bit pattern, a number below 2 ^ 32, with the
-- wrap-around and the signed comparisons of the kernel's build. An array of ten floors is a
-- function that is read and written only below MAX_FLOOR; a result `none` is a fault: an index out
-- of bounds, a write through NULL, or kfree of a block that is not allocated. A passenger is
-- identified by the address of its block, the lists hold passengers in their order, and list_del
-- takes the node out of every list of the building on which it stands. The blocks that are
-- allocated are part of the state. list_for_each_safe visits the nodes that the list held at its
-- start, since the bodies unlink no node but the one they visit. The address that kmalloc returns
-- and the outcome of mutex_lock_interruptible are arguments. A critical section is one step of
-- Elevator/System, and a row of accesses of Elevator/Mutex, where the body of a call is one of
-- them; issue_request is two steps, since it tests the shutdown flag and allocates before it takes
-- the lock.
-- No loop of the model runs on fuel: the loops over passengers recur on the list, those over floors
-- on the ten rounds, and the thread on the list of its rounds.
--
-- A text is a list of character codes. The decimals of %d and %lu are computed digit by digit, for
-- at most 10 and 20 digits, which every 32-bit and every 64-bit number fits. What the kernel gives
-- is an argument: whether kmalloc, proc_create and kthread_run succeed, the current time, and
-- timespec_sub.
--
-- The programs run with atoi, strcmp and syscall of the C library, which makes -1 of an error
-- number from -4095 to -1; the results of rand are an argument. What atoi makes of a number past
-- the range of an int, which C leaves open, is taken modulo 2 ^ 32.
--
-- Not modelled: printk, perror, the sleeping times, what mutex_unlock does where the lock is not
-- held (it has no effect in Elevator/System, and is an argument in Elevator/Mutex), calls of
-- random_animals.c that overlap (it takes no lock, and each opening, read and closing is one step of
-- Animals/Showing), the copies of
-- kernel files in part3/SystemCalls, and the programs of part1 and
-- course_materials/Project2_Examples/01_hello_world_module, which only print.
-- Project2_Sample_TestFiles of course_materials holds the same test programs as
-- part3/elevator/test.
pub mod Base
pub mod Elevator
pub mod Programs
pub mod Timer
pub mod Animals
pub mod Threads
pub mod Hello
pub mod TestCall
