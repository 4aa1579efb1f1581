-- ===== src/SparseTree.antt =====
-- The sparse Merkle tree of smt-v3/smt.go, with 256 children to a node.
pub mod Types
pub mod Nodes
pub mod Update
pub mod Tree
mod Tests
