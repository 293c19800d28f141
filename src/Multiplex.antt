-- ===== src/Multiplex.antt =====
-- network/socket/codes/echo: one process that serves many clients.
pub mod Slots
pub mod Select
pub mod Table
pub mod Rounds
pub mod Poll
pub mod PollTable
pub mod PollRoom
pub mod Epoll
pub mod EpollTree
mod Tests
