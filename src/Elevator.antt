-- ===== src/Elevator.antt =====
-- part3/elevator: the elevator, the floors, the kernel thread that runs it, and the system calls.
pub mod Types
pub mod Passengers
pub mod Building
pub mod Checks
pub mod Thread
pub mod Requests
pub mod Exit
pub mod Proc
pub mod Invariant
pub mod System
pub mod Progress
pub mod Service
pub mod Mutex
pub mod Kernel
pub mod SectionExamples
mod Examples
