-- ===== src/Guest/Peek/Loop.antt =====
-- src/guest.c, peek_poke: what the loop leaves in the memory and in the buffer, and where it ends.
mod Steps
pub mod Reads
pub mod Writes
