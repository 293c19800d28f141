-- ===== src/Pairs.antt =====
-- process/ipc/codes/print/print.c: two processes that print letters under one semaphore.
pub mod Print
pub mod Order
mod Tests
