-- ===== src/Stream.antt =====
-- network/socket/codes/readline/server.c: exact-count reads and writes, and reading by lines, on a
-- stream socket. `client.c` beside it and both files of codes/fixed-length repeat `readn` and
-- `writen` word for word.
pub mod Kernel
pub mod Counted
pub mod Lines
pub mod Chat
pub mod Wires
mod Tests
