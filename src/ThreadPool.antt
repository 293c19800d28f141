-- ===== src/ThreadPool.antt =====
-- process/ipc/codes/threadpool: a pool of worker threads over a linked queue of tasks.
pub mod Tasks
pub mod Worker
pub mod System
pub mod Invariant
pub mod Safety
mod Tests
