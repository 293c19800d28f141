-- ===== src/ShmFifo.antt =====
-- process/ipc/codes/produce-consume: a FIFO of blocks in shared memory, for any processes.
pub mod Fifo
pub mod System
pub mod Invariant
pub mod Effect
pub mod Moves
pub mod Order
mod Tests
