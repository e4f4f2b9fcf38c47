-- ===== src/Sched.antt =====
-- internal/kernel/sched: the run engine, the only writer of runs.state.
pub mod World
pub mod Machine
pub mod States
pub mod Admission
pub mod Create
pub mod Kernel
pub mod Stop
pub mod Enqueue
pub mod Supervise
pub mod Reconcile
pub mod Board
pub mod Clock
pub mod Steps
