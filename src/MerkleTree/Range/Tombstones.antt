-- ===== src/MerkleTree/Range/Tombstones.antt =====
-- An item that is inserted where another was deleted: range queries do not see it, since they tell
-- a deleted leaf by its hash, which only `ComputeRoot` replaces.
use mathlib.Core.Path.{subst}
use mathlib.Core.Option.{some-injective}
use onchain_exchange_homewor.Prelude.{
  ℕ, zero, suc, ◌+◌, true, Option, none, some, List, [], ◌∷◌, ◌++◌, ◌==◌, ◌≡◌, if◌then◌else◌,
  get_or, arith, refl, Bool-cases, inl, inr, sym, ap, ◌∙◌,
}
use onchain_exchange_homewor.MerkleTree.Types.{
  Hashable, deleted_node_hash, bytes_eq_refl, Cell, Node, node, Children, none_left, child, cell,
  alloc,
}
use onchain_exchange_homewor.MerkleTree.Nodes.{
  last_byte, mark_dirty, place_child, revise_child, write_leaf, new_leaf, insert_node, clear_leaf,
  delete_node,
}
use onchain_exchange_homewor.MerkleTree.Nodes.Paths.{
  path, find_child, item_at, item_at-cons, item_below,
}
use onchain_exchange_homewor.MerkleTree.Nodes.Delete.{IsTree}
use onchain_exchange_homewor.MerkleTree.Range.{
  Query, range_query_leaf, range_query_node, range_query_children,
}

module _ {T : Type 0} (hashable : Hashable T) (q : Query) where
  -- A change of a child that was revised, and is there, that the query does not see.
  range-place_child :
      (i : ℕ) (f g : Node T → Node T) (fresh : Node T) (kids : Children T) (n : Node T)
      → find_child i kids ≡ some n
      → range_query_node hashable q (f (g n)) ≡ range_query_node hashable q (g n)
      → range_query_children hashable q (place_child i f fresh (revise_child i g kids))
        ≡ range_query_children hashable q (revise_child i g kids)
  unfolding range_query_node find_child place_child revise_child
  range-place_child i f g fresh none_left n found same = cc
  range-place_child i f g fresh (child k m rest) n found same = elim (Bool-cases (k == i)) [
    | inl e ↦
        rw (e, revise_child)
          (rw (e, place_child)
            (ap (λ xs. xs ++ range_query_children hashable q rest)
              (subst
                (λ x. range_query_node hashable q (f (g x)) ≡ range_query_node hashable q (g x))
                (sym (some-injective m n (rw e at found))) same)))
    | inr e ↦
        rw (e, revise_child)
          (rw (e, place_child)
            (ap (◌++◌ (range_query_node hashable q m))
              (range-place_child i f g fresh rest n (rw e at found) same)))
  ]

  found-below :
      (i : ℕ) (p : List ℕ) (c : Cell T) (kids : Children T) (v : T)
      → item_at hashable (i ∷ p) (node c kids) ≡ some v
      → (n : Node T) × (find_child i kids ≡ some n) × (item_at hashable p n ≡ some v)
  unfolding item_below
  found-below i p c kids v e =
      below (find_child i kids) refl (sym (item_at-cons hashable i p c kids) ∙ e)
    where
      below :
          (o : Option (Node T))
          → find_child i kids ≡ o
          → item_below hashable p o ≡ some v
          → (n : Node T) × (find_child i kids ≡ some n) × (item_at hashable p n ≡ some v)
      below none found h = cc
      below (some n) found h = (n, found, h)

  write_leaf-clear_leaf :
      (item : T) (n : Node T)
      → (cell n).is_leaf ≡ true
      → range_query_node hashable q (write_leaf item (clear_leaf hashable n))
        ≡ range_query_node hashable q (clear_leaf hashable n)
  unfolding range_query_leaf range_query_node write_leaf clear_leaf
  write_leaf-clear_leaf item (node c kids) leaf =
      ground (arith, bytes_eq_refl (deleted_node_hash hashable))

  range-mark_dirty :
      (c : Cell T) (kids kids' : Children T)
      → range_query_children hashable q kids ≡ range_query_children hashable q kids'
      → range_query_node hashable q (node (mark_dirty c) kids)
        ≡ range_query_node hashable q (node c kids')
  unfolding range_query_node range_query_leaf
  range-mark_dirty c kids kids' e =
      ap (λ below. if c.is_leaf then range_query_leaf hashable q c else below) e

  -- Where an item was in the tree, and all leaves are at its depth, deleting it and then inserting
  -- one whose key has the same path (such as the item itself) changes no range query: what is
  -- inserted is not found.
  pub range_query_node-tombstone :
      (levels depth : ℕ) (item other v : T) (n : Node T)
      → IsTree hashable (suc levels) n
      → path levels depth (hashable.key item) ≡ path levels depth (hashable.key other)
      → item_at hashable (path levels depth (hashable.key other)) n ≡ some v
      → range_query_node hashable q
          (insert_node hashable levels depth item (delete_node hashable levels depth other n))
        ≡ range_query_node hashable q (delete_node hashable levels depth other n)
  unfolding insert_node delete_node
  range_query_node-tombstone zero depth item other v (node c kids) t e there =
      let j = last_byte (hashable.key other) in
      let same : last_byte (hashable.key item) ≡ j = cc in
      let (n, found, _) = found-below j [] c kids v there in
      range-mark_dirty _ _ _ (
        ap
          (λ i. range_query_children hashable q (
            place_child i (write_leaf item) (new_leaf hashable item)
              (revise_child j (clear_leaf hashable) kids)))
          same
        ∙ range-place_child j (write_leaf item) (clear_leaf hashable) (new_leaf hashable item) kids
            n found (write_leaf-clear_leaf item n (t j n found)))
  range_query_node-tombstone (suc levels) depth item other v (node c kids) t e there =
      let j = get_or (hashable.key other) depth 0 in
      let same : get_or (hashable.key item) depth 0 ≡ j = cc in
      let below : path levels (depth + 1) (hashable.key item)
          ≡ path levels (depth + 1) (hashable.key other) =
        cc in
      let (n, found, there') =
        found-below j (path levels (depth + 1) (hashable.key other)) c kids v there in
      let insert = insert_node hashable levels (depth + 1) item in
      let delete = delete_node hashable levels (depth + 1) other in
      range-mark_dirty _ _ _ (
        ap
          (λ i.
            range_query_children hashable q
              (place_child i insert (insert (alloc hashable)) (revise_child j delete kids)))
          same
        ∙ range-place_child j insert delete (insert (alloc hashable)) kids n found (
            range_query_node-tombstone levels (depth + 1) item other v n (t j n found) below
              there'))
