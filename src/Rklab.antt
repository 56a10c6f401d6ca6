-- ===== src/Rklab.antt =====
-- rklab: substring matching, naive and by Rabin-Karp hashes, and a Bloom filter of the hashes.
pub mod Text
pub mod Hash
pub mod Match
pub mod Bloom
pub mod Index
mod Tests
