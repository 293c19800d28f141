-- ===== src/Stream/Lines.antt =====
-- `recv_peek` and `readline`: find the newline in a copy of what is pending, then take the line.
pub mod Defs
pub mod Steps
pub mod Rounds
pub mod Total
