-- ===== src/Packet.antt =====
-- network/socket/codes/fixed-length/server.c: lines in packets with their length in front. Its
-- `readn` and `writen` are those of `Stream.Counted`.
pub mod Format
pub mod Session
pub mod Printing
pub mod Exchange
mod Tests
