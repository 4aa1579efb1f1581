-- ===== src/MerkleTree/Hashing/Upkeep.antt =====
-- Insertions and deletions keep what is cached in a tree true.
use onchain_exchange_homewor.Prelude.{
  ℕ, zero, suc, ◌+◌, Bool, true, false, ◌≡◌, ◌==◌, if◌then◌else◌, refl, Bool-cases, inl, inr, ap,
}
use onchain_exchange_homewor.MerkleTree.Types.{
  deleted_node_hash, bytes_eq_refl, Hashable, Cell, Node, node, Children, none_left, child, alloc,
}
use onchain_exchange_homewor.MerkleTree.Nodes.{
  mark_dirty, place_child, revise_child, has_child, write_leaf, new_leaf, insert_node, clear_leaf,
  delete_node,
}
use onchain_exchange_homewor.MerkleTree.Hashing.{is_cached}
use onchain_exchange_homewor.MerkleTree.Hashing.Caching.{node_hash, IsConsistent, AreConsistent}

module _ {T : Type 0} (hashable : Hashable T) where
  place_child-AreConsistent :
      (i : ℕ) (change : Node T → Node T) (fresh : Node T) (kids : Children T)
      → ((n : Node T) → IsConsistent hashable n → IsConsistent hashable (change n))
      → IsConsistent hashable fresh
      → AreConsistent hashable kids
      → AreConsistent hashable (place_child i change fresh kids)
  unfolding place_child
  place_child-AreConsistent i change fresh none_left keep new h = (new, tt)
  place_child-AreConsistent i change fresh (child k n rest) keep new h =
      elim (Bool-cases (k == i)) [
        | inl e ↦ rw (e, place_child) (keep n h.0, h.1)
        | inr e ↦
            rw (e, place_child) (h.0, place_child-AreConsistent i change fresh rest keep new h.1)
      ]

  revise_child-AreConsistent :
      (i : ℕ) (change : Node T → Node T) (kids : Children T)
      → ((n : Node T) → IsConsistent hashable n → IsConsistent hashable (change n))
      → AreConsistent hashable kids
      → AreConsistent hashable (revise_child i change kids)
  unfolding revise_child
  revise_child-AreConsistent i change none_left keep h = tt
  revise_child-AreConsistent i change (child k n rest) keep h = elim (Bool-cases (k == i)) [
    | inl e ↦ rw (e, revise_child) (keep n h.0, h.1)
    | inr e ↦ rw (e, revise_child) (h.0, revise_child-AreConsistent i change rest keep h.1)
  ]

  revise_child-none :
      (i : ℕ) (change : Node T → Node T) (kids : Children T)
      → has_child i kids ≡ false
      → revise_child i change kids ≡ kids
  unfolding revise_child has_child
  revise_child-none i change none_left h = refl
  revise_child-none i change (child k n rest) h = elim (Bool-cases (k == i)) [
    | inl e ↦ cc (rw e at h)
    | inr e ↦ rw (e, revise_child) (ap (child k n) (revise_child-none i change rest (rw e at h)))
  ]

  dirty-IsConsistent :
      (c : Cell T) (kids : Children T)
      → AreConsistent hashable kids
      → IsConsistent hashable (node (mark_dirty c) kids)
  unfolding is_cached
  dirty-IsConsistent c kids h = (h, λ cached. cc)

  pub alloc-IsConsistent : IsConsistent hashable (alloc hashable)
  unfolding alloc is_cached node_hash
  alloc-IsConsistent = (tt, λ cached. cc)

  write_leaf-IsConsistent :
      (item : T) (n : Node T) → IsConsistent hashable n → IsConsistent hashable (write_leaf item n)
  unfolding write_leaf is_cached
  write_leaf-IsConsistent item (node c kids) h = (h.0, λ cached. cc)

  new_leaf-IsConsistent : (item : T) → IsConsistent hashable (new_leaf hashable item)
  unfolding new_leaf is_cached
  new_leaf-IsConsistent item = (tt, λ cached. cc)

  clear_leaf-IsConsistent :
      (n : Node T) → IsConsistent hashable n → IsConsistent hashable (clear_leaf hashable n)
  unfolding clear_leaf node_hash
  clear_leaf-IsConsistent (node c kids) h = by_kind c.is_leaf refl
    where
      by_kind :
          (b : Bool)
          → c.is_leaf ≡ b
          → IsConsistent hashable (
              node
                (if b
                  then record c {
                    hash = deleted_node_hash hashable;
                    value = hashable.zero_value;
                    dirty = false;
                  }
                  else c)
                kids)
      by_kind true leaf = (h.0, λ cached. rw leaf (rw (bytes_eq_refl (deleted_node_hash hashable))))
      by_kind false inner = h

  pub insert_node-IsConsistent :
      (levels depth : ℕ) (item : T) (n : Node T)
      → IsConsistent hashable n
      → IsConsistent hashable (insert_node hashable levels depth item n)
  unfolding insert_node
  insert_node-IsConsistent zero depth item (node c kids) h = dirty-IsConsistent c _ (
      place_child-AreConsistent _ (write_leaf item) (new_leaf hashable item) kids
        (write_leaf-IsConsistent item) (new_leaf-IsConsistent item) h.0)
  insert_node-IsConsistent (suc levels) depth item (node c kids) h =
      let below = insert_node-IsConsistent levels (depth + 1) item in
      dirty-IsConsistent c _ (
        place_child-AreConsistent _ (insert_node hashable levels (depth + 1) item)
          (insert_node hashable levels (depth + 1) item (alloc hashable)) kids below
          (below (alloc hashable) alloc-IsConsistent) h.0)

  -- The node over the child that a deletion descends to.
  revise-IsConsistent :
      (i : ℕ) (change : Node T → Node T) (c : Cell T) (kids : Children T)
      → ((n : Node T) → IsConsistent hashable n → IsConsistent hashable (change n))
      → IsConsistent hashable (node c kids)
      → IsConsistent hashable
          (node (if has_child i kids then mark_dirty c else c) (revise_child i change kids))
  revise-IsConsistent i change c kids keep h = elim (Bool-cases (has_child i kids)) [
    | inl e ↦ rw e (
        dirty-IsConsistent c (revise_child i change kids)
          (revise_child-AreConsistent i change kids keep h.0))
    | inr e ↦ rw e (rw (revise_child-none i change kids e) h)
  ]

  pub delete_node-IsConsistent :
      (levels depth : ℕ) (item : T) (n : Node T)
      → IsConsistent hashable n
      → IsConsistent hashable (delete_node hashable levels depth item n)
  unfolding delete_node
  delete_node-IsConsistent zero depth item (node c kids) h =
      revise-IsConsistent _ (clear_leaf hashable) c kids clear_leaf-IsConsistent h
  delete_node-IsConsistent (suc levels) depth item (node c kids) h =
      revise-IsConsistent _ (delete_node hashable levels (depth + 1) item) c kids
        (delete_node-IsConsistent levels (depth + 1) item) h
