-- ===== src/Dinner.antt =====
-- process/ipc/codes/dinner/dinner.c: five philosophers, five forks in one semaphore set.
pub mod Philosophers
pub mod Forks
mod Tests
