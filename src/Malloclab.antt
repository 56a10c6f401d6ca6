-- ===== src/Malloclab.antt =====
-- malloclab: the simulated heap of memlib.c, the allocators mm.c and mm-naive.c, and mdriver.c, which
-- checks an allocator on a trace and measures it. An address is a natural number.
pub mod Memlib
pub mod Ranges
pub mod Headers
pub mod Mm
pub mod Naive
pub mod Allocator
pub mod Driver
mod Tests
