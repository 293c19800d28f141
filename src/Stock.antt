-- ===== src/Stock.antt =====
-- process/ipc/codes/produce-consume/cond-produce-consume.c: a stock guarded by a condition variable.
pub mod Threads
pub mod Invariant
pub mod Wakeups
mod Tests
