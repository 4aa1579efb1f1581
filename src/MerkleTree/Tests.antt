-- ===== src/MerkleTree/Tests.antt =====
-- The theorems on the trees of mt-manager/merkletree, applied to small trees.
mod Items
mod Nodes
mod Trees
mod Proofs
mod Managers
mod Lrus
