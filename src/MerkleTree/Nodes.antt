-- ===== src/MerkleTree/Nodes.antt =====
-- `insertNode` and `deleteNode` of mt-manager/merkletree/tree.go. A node is locked while it is
-- read and changed, so each is one step; `insertNodeUnderGlobalLock` is the same code without the
-- locks. `levels` counts what is left to `maxDepth - 1`.
pub mod Paths
pub mod Delete
pub mod Collide
use onchain_exchange_homewor.Prelude.{
  ℕ, zero, suc, ◌+◌, ◌-◌, Bool, true, false, ◌||◌, List, ◌==◌, if◌then◌else◌, length, get_or,
}
use onchain_exchange_homewor.MerkleTree.Types.{
  Hashable, deleted_node_hash, Cell, Node, node, Children, none_left, child, empty_cell, alloc,
}

-- `key[len(key)-1]`
abbrev pub last_byte : List ℕ → ℕ
last_byte key = get_or key (length key - 1) 0

module _ {T : Type 0} where
  -- The loop over `node.Keys`: the first child with the key is changed.
  unfoldable pub revise_child : ℕ → (Node T → Node T) → Children T → Children T
  revise_child idx change none_left = none_left
  revise_child idx change (child k n rest) =
      if k == idx then child k (change n) rest else child k n (revise_child idx change rest)

  -- The same loop, and a new child behind the others if there is none with the key.
  unfoldable pub place_child : ℕ → (Node T → Node T) → Node T → Children T → Children T
  place_child idx change fresh none_left = child idx fresh none_left
  place_child idx change fresh (child k n rest) =
      if k == idx then child k (change n) rest else child k n (place_child idx change fresh rest)

  unfoldable pub has_child : ℕ → Children T → Bool
  has_child idx none_left = false
  has_child idx (child k n rest) = k == idx || has_child idx rest

  abbrev pub mark_dirty : Cell T → Cell T
  mark_dirty c = record c { dirty = true }

  -- `child.Value = item; child.dirty.Store(true)`: the old hash stays.
  unfoldable pub write_leaf : T → Node T → Node T
  write_leaf item (node c kids) = node (record c { value = item; dirty = true }) kids

  module _ (hashable : Hashable T) where
    -- A new leaf: `child.IsLeaf = true`, then as above.
    unfoldable pub new_leaf : T → Node T
    new_leaf item =
        node (record (empty_cell hashable) { value = item; is_leaf = true; dirty = true }) none_left

    -- `insertNode`
    unfoldable pub insert_node : ℕ → ℕ → T → Node T → Node T
    unfolding place_child write_leaf new_leaf alloc
    insert_node zero depth item (node c kids) =
        node (mark_dirty c)
          (place_child (last_byte (hashable.key item)) (write_leaf item) (new_leaf item) kids)
    insert_node (suc levels) depth item (node c kids) =
        let below = insert_node levels (depth + 1) item in
        node (mark_dirty c)
          (place_child (get_or (hashable.key item) depth 0) below (below (alloc hashable)) kids)

    -- A leaf is emptied and gets the hash of deleted nodes; any other node stays.
    unfoldable pub clear_leaf : Node T → Node T
    clear_leaf (node c kids) =
        node
          (if c.is_leaf
            then record c {
              hash = deleted_node_hash hashable;
              value = hashable.zero_value;
              dirty = false;
            }
            else c)
          kids

    -- `deleteNode`
    unfoldable pub delete_node : ℕ → ℕ → T → Node T → Node T
    unfolding revise_child has_child clear_leaf
    delete_node zero depth item (node c kids) =
        let idx = last_byte (hashable.key item) in
        node (if has_child idx kids then mark_dirty c else c) (revise_child idx clear_leaf kids)
    delete_node (suc levels) depth item (node c kids) =
        let idx = get_or (hashable.key item) depth 0 in
        node (if has_child idx kids then mark_dirty c else c)
          (revise_child idx (delete_node levels (depth + 1) item) kids)
