-- ===== src/Threadlab.antt =====
-- threadlab: a reader-writer lock and a hash table that locks its slots with it.
pub mod Rwlock
pub mod Primes
pub mod Hash
pub mod Htable
mod Tests
