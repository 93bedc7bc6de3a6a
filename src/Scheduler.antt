-- ===== src/Scheduler.antt =====
-- The coroutines of the runtime: runtime/scheduler.cpp.
pub mod Queue
pub mod Fifo
pub mod Turns
pub mod Fairness
