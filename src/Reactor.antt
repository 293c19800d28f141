-- ===== src/Reactor.antt =====
-- network/socket/codes/epoll-reactor/epoll.c: a table of connections driven by callbacks.
pub mod Table
pub mod Handlers
pub mod Wired
pub mod Loop
pub mod Echo
pub mod Sweep
mod Tests
