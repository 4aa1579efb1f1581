-- ===== src/SparseTree/Nodes.antt =====
-- `storeLeaf`, `storeInternal` and `get` of smt-v3/smt.go.
pub mod Stored
pub mod Reads
use onchain_exchange_homewor.Prelude.{
  ℕ, zero, suc, ◌+◌, Bool, true, false, not, List, [], ◌∷◌, if◌then◌else◌, get_or, select, map,
}
use onchain_exchange_homewor.MerkleTree.Types.{Hash, bytes_eq}
use onchain_exchange_homewor.SparseTree.Types.{
  empty_hash, Node, internal, leaf, key_not_found, shortcut_mismatch, branch_empty, panic, Result,
  ok, err, Store, load_node, put, Run,
}

abbrev pub is_active : Hash → Bool
is_active h = not (bytes_eq h empty_hash)

-- The bitmap and the hashes that `storeInternal` writes for the children.
unfoldable pub node_of : List Hash → Node
node_of children = internal (map is_active children) (select is_active children)

-- The children that `updateBatchParallel` reads from an internal node.
unfoldable pub children_of : List Bool → List Hash → List Hash
children_of [] hashes = []
children_of (false ∷ bits) hashes = empty_hash ∷ children_of bits hashes
children_of (true ∷ bits) [] = empty_hash ∷ children_of bits []
children_of (true ∷ bits) (h ∷ hashes) = h ∷ children_of bits hashes

-- How many of the bits below an index are set, as `OnesCount64` counts them in `get`.
unfoldable pub rank : ℕ → List Bool → ℕ
rank i [] = 0
rank zero (b ∷ bits) = 0
rank (suc i) (true ∷ bits) = suc (rank i bits)
rank (suc i) (false ∷ bits) = rank i bits

-- The hash of a node's bytes is that of the node.
module _ (node_hash : Node → Hash) where
  -- `storeLeaf` and `storeInternal`
  unfoldable pub save : Node → Run Hash
  save n st = (ok (node_hash n), put (node_hash n) n st)

-- The byte of a key by which a node at that depth is left.
abbrev pub byte_at : ℕ → List ℕ → ℕ
byte_at depth key = get_or key depth 0

-- A leaf is the key's or not.
abbrev pub at_leaf : List ℕ → List ℕ → List ℕ → Result (List ℕ)
at_leaf key k v = if bytes_eq k key then ok v else err shortcut_mismatch

-- The child for a byte, if its bit is set.
unfoldable pub at_child : (Hash → Result (List ℕ)) → List Bool → List Hash → ℕ → Result (List ℕ)
unfolding rank
at_child below bits hashes idx =
    if get_or bits idx false then below (get_or hashes (rank idx bits) []) else err branch_empty

-- `get`; `levels` is what is left of the 32 bytes of the key.
unfoldable pub get_at : ℕ → Store → Hash → List ℕ → ℕ → Result (List ℕ)
unfolding load_node at_child
get_at zero st root key depth =
    if bytes_eq root empty_hash then err key_not_found else elim (load_node st root) [
      | ok (leaf k v) ↦ at_leaf key k v
      | ok (internal bits hashes) ↦ err panic
      | err e ↦ err e
    ]
get_at (suc levels) st root key depth =
    let below = λ (child : Hash). get_at levels st child key (depth + 1) in
    if bytes_eq root empty_hash then err key_not_found else elim (load_node st root) [
      | ok (leaf k v) ↦ at_leaf key k v
      | ok (internal bits hashes) ↦ at_child below bits hashes (byte_at depth key)
      | err e ↦ err e
    ]
