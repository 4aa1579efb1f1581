-- ===== src/MerkleTree/Nodes/Collide.antt =====
-- Items whose keys share a path overwrite one another.
use onchain_exchange_homewor.Prelude.{
  ℕ, zero, suc, ◌+◌, ◌%◌, ◌<◌, true, ◌==◌, ◌≡◌, get_or, arith, refl, Bool-cases, inl, inr, sym, ap,
  ◌∙◌,
}
use onchain_exchange_homewor.MerkleTree.Types.{
  Hashable, Node, node, Children, none_left, child, alloc,
}
use onchain_exchange_homewor.MerkleTree.Nodes.{
  last_byte, mark_dirty, place_child, write_leaf, new_leaf, insert_node,
}
use onchain_exchange_homewor.MerkleTree.Nodes.Paths.{path}
use onchain_exchange_homewor.Models.Bytes.{put_be}

module _ {T : Type 0} where
  place_child-place_child :
      (i : ℕ) (f g : Node T → Node T) (x y : Node T) (kids : Children T)
      → ((n : Node T) → f (g n) ≡ f n)
      → f y ≡ x
      → place_child i f x (place_child i g y kids) ≡ place_child i f x kids
  unfolding place_child
  place_child-place_child i f g x y none_left over new =
      let self : i == i ≡ true = ground arith in rw self (ap (λ n. child i n none_left) new)
  place_child-place_child i f g x y (child k n rest) over new = elim (Bool-cases (k == i)) [
    | inl e ↦ rw (e, place_child) (rw (e, place_child) (ap (λ m. child k m rest) (over n)))
    | inr e ↦
        rw (e, place_child)
          (rw e (ap (child k n) (place_child-place_child i f g x y rest over new)))
  ]

  module _ (hashable : Hashable T) where
    write_leaf-write_leaf :
        (item other : T) (n : Node T) → write_leaf item (write_leaf other n) ≡ write_leaf item n
    unfolding write_leaf
    write_leaf-write_leaf item other (node c kids) = refl

    write_leaf-new_leaf :
        (item other : T) → write_leaf item (new_leaf hashable other) ≡ new_leaf hashable item
    unfolding write_leaf new_leaf
    write_leaf-new_leaf item other = refl

    -- An item that is inserted behind another whose key has the same path leaves the tree as if
    -- the other had never been inserted.
    pub insert_node-overwrite :
        (levels depth : ℕ) (item other : T) (n : Node T)
        → path levels depth (hashable.key item) ≡ path levels depth (hashable.key other)
        → insert_node hashable levels depth item (insert_node hashable levels depth other n)
          ≡ insert_node hashable levels depth item n
    unfolding insert_node
    insert_node-overwrite zero depth item other (node c kids) e =
        let i = last_byte (hashable.key item) in
        let same : i ≡ last_byte (hashable.key other) = cc in
        let write = place_child i (write_leaf item) (new_leaf hashable item) in
        ap
          (λ j.
            node (mark_dirty c)
              (write (place_child j (write_leaf other) (new_leaf hashable other) kids)))
          (sym same)
        ∙ ap (node (mark_dirty c)) (
            place_child-place_child i (write_leaf item) (write_leaf other) (new_leaf hashable item)
              (new_leaf hashable other) kids (write_leaf-write_leaf item other)
              (write_leaf-new_leaf item other))
    insert_node-overwrite (suc levels) depth item other (node c kids) e =
        let i = get_or (hashable.key item) depth 0 in
        let same : i ≡ get_or (hashable.key other) depth 0 = cc in
        let below = insert_node hashable levels (depth + 1) in
        let fresh = alloc hashable in
        let again = λ (n : Node T). insert_node-overwrite levels (depth + 1) item other n (cc) in
        ap
          (λ j. node (mark_dirty c) (
            place_child i (below item) (below item fresh)
              (place_child j (below other) (below other fresh) kids)))
          (sym same)
        ∙ ap (node (mark_dirty c)) (
            place_child-place_child i (below item) (below other) (below item fresh)
              (below other fresh) kids again (again fresh))

-- At the depth 3 of the default configuration a tree tells IDs apart by the first two bytes of
-- their keys and the last one.
pub path-collision :
    (a b : ℕ)
    → a < 0x1_0000_0000_0000
    → b < 0x1_0000_0000_0000
    → a % 256 ≡ b % 256
    → path 2 0 (put_be 8 a) ≡ path 2 0 (put_be 8 b)
unfolding put_be
path-collision a b h k e = ground arith
