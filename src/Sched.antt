-- ===== src/Sched.antt =====
-- kernel/sched/sched.c: the ready threads and the threads of the processes.
pub mod Queue
pub mod Fifo
pub mod Growing
pub mod Threads
pub mod Lookup
pub mod Turns
pub mod Waking
pub mod Blocking
pub mod Killing
pub mod Telling
pub mod Exiting
mod Tests
