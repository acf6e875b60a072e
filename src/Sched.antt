-- ===== src/Sched.antt =====
-- src/sched: the threads, their queues, the adaptive priorities and the scheduler's calls.
pub mod Thread
pub mod State
pub mod Ready
pub mod Sleep
pub mod Adapt
pub mod Calls
mod Tests
