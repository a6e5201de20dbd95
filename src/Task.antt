-- ===== src/Task.antt =====
-- kernel/crates/major/src/task: processes, threads and their resources.
pub mod Resource
pub mod UserPtr
pub mod Timers
