-- ===== src/MerkleTree.antt =====
-- The Merkle trees of mt-manager/merkletree, over items of any type with a key, an ID and a hash.
pub mod Types
pub mod Nodes
pub mod Hashing
pub mod TopN
pub mod Range
pub mod Cache
pub mod Lru
pub mod Shards
pub mod Tree
pub mod Proof
pub mod Manager
mod Tests
