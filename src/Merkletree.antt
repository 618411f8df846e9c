-- ===== src/Merkletree.antt =====
-- merkletree/: the Merkle tree code (hash.go, collapsed_tree.go, fragment.go) and its proofs.
pub mod Hash
pub mod Bits
pub mod Collapsed
pub mod Perfect
pub mod Root
pub mod Add
pub mod Unique
pub mod Append
pub mod Build
pub mod Fragment
pub mod Cells
pub mod Holds
pub mod Insert
mod Tests
