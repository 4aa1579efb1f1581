-- ===== src/MerkleTree/Hashing.antt =====
-- `computeNodeHash` and `ComputeRoot` of mt-manager/merkletree/tree.go. The goroutines and the
-- batches of leaves fill separate places with what the plain loop computes, so they are that loop.
pub mod Caching
pub mod Upkeep
use onchain_exchange_homewor.Prelude.{
  ℕ, zero, suc, Bool, false, not, ◌&&◌, List, [], ◌∷◌, ◌++◌, ltb, if◌then◌else◌, length,
}
use onchain_exchange_homewor.MerkleTree.Types.{
  Hash, zero_hash, Hashable, bytes_eq, Cell, Node, node, Children, none_left, child,
}

-- A key of `node.Keys` with the hash of its child.
abbrev pub Entry : Type 0
Entry = ℕ × Hash

-- The inner loop of the sort: the entry at `i` is swapped with each smaller one behind it.
unfoldable pub sift : Entry → List Entry → Entry × List Entry
sift e [] = (e, [])
sift e (f ∷ rest) =
    let swap = ltb f.0 e.0 in
    let (first, rest') = sift (if swap then f else e) rest in
    (first, (if swap then e else f) ∷ rest')

-- The outer loop, with as many rounds as there are entries.
unfoldable pub sort_rounds : ℕ → List Entry → List Entry
unfolding sift
sort_rounds zero es = es
sort_rounds (suc n) [] = []
sort_rounds (suc n) (e ∷ es) = let (first, rest) = sift e es in first ∷ sort_rounds n rest

unfoldable pub sort_entries : List Entry → List Entry
unfolding sort_rounds
sort_entries es = sort_rounds (length es) es

-- What is written to the hasher: each key, then the hash of its child.
unfoldable pub entry_bytes : List Entry → List ℕ
entry_bytes [] = []
entry_bytes ((k, h) ∷ es) = k ∷ (h ++ entry_bytes es)

-- `!node.dirty.Load() && node.Hash != [32]byte{}`
unfoldable pub is_cached : {T : Type 0} → Cell T → Bool
is_cached c = not c.dirty && not (bytes_eq c.hash zero_hash)

abbrev pub hashed : {T : Type 0} → Hash → Cell T → Cell T
hashed h c = record c { hash = h; dirty = false }

module _ {T : Type 0} (hashable : Hashable T) where
  -- The hash of a node whose children have the hashes `es`.
  unfoldable pub combine : List Entry → Hash
  unfolding sort_entries entry_bytes
  combine es = hashable.blake3 (entry_bytes (sort_entries es))

  -- A node that is no leaf: one with no keys is left as it is.
  unfoldable pub store_hash : Cell T → List Entry → Children T → Hash × Node T
  unfolding combine
  store_hash c [] kids = (zero_hash, node c kids)
  store_hash c (e ∷ es) kids = (combine (e ∷ es), node (hashed (combine (e ∷ es)) c) kids)

  -- `computeNodeHash`: the hash, and the node with what is stored in it.
  unfoldable mutual
    unfolding is_cached store_hash

    pub compute_node_hash : Node T → Hash × Node T
    compute_node_hash (node c kids) =
        let (es, kids') = compute_children kids in
        let h = hashable.hash c.value in
        if is_cached c
        then (c.hash, node c kids)
        else if c.is_leaf
        then (h, node (hashed h c) kids)
        else store_hash c es kids'

    pub compute_children : Children T → List Entry × Children T
    compute_children none_left = ([], none_left)
    compute_children (child k n rest) =
        let (h, n') = compute_node_hash n in
        let (es, rest') = compute_children rest in ((k, h) ∷ es, child k n' rest')
