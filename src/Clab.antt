-- ===== src/Clab.antt =====
-- clab/mini: the exercises on arrays, lists, trees and strings.
pub mod Tree
pub mod Sort
pub mod Sieve
pub mod Token
pub mod Nodes
pub mod Bits
mod Tests
