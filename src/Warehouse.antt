-- ===== src/Warehouse.antt =====
-- process/ipc/codes/produce-consume: a warehouse that the threads of one process fill and empty.
pub mod Threads
pub mod Invariant
pub mod Places
mod Tests
