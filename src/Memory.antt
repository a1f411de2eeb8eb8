-- ===== src/Memory.antt =====
-- The memory of log entries: src/malc/bounded_buffer.c and src/malc/memory.c.
pub mod Bounded
pub mod Sources
pub mod Room
pub mod Origin
pub mod Setup
pub mod TssList
