-- ===== src/Elevator/Progress.antt =====
-- What happens over many rounds of the kernel thread.
pub mod Sweep
pub mod Delivery
pub mod Standstill
pub mod Closing
pub mod Stopping
pub mod Blocked
pub mod Riding
pub mod Interleaved
pub mod Turning
pub mod Working
pub mod Rounds
pub mod Emptying
pub mod Finishing
pub mod Restarting
