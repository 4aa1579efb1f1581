-- ===== src/MerkleTree/Nodes/Delete.antt =====
-- What a deletion changes in a tree, and the shape that insertions and deletions keep.
use mathlib.Core.Path.{subst}
use mathlib.Core.Option.{some-injective}
use onchain_exchange_homewor.Prelude.{
  ℕ, zero, suc, ◌+◌, Bool, true, false, ◌&&◌, Option, none, some, List, [], ◌∷◌, ◌==◌, ◌≡◌,
  if◌then◌else◌, length, get_or, arith, refl, Bool-cases, inl, inr, ◌⊎◌, sym, ap, ◌∙◌,
}
use onchain_exchange_homewor.MerkleTree.Types.{
  Hashable, deleted_node_hash, bytes_eq, bytes_eq_refl, Cell, Node, node, Children, none_left,
  child, alloc, cell, children,
}
use onchain_exchange_homewor.MerkleTree.Nodes.{
  last_byte, mark_dirty, place_child, revise_child, has_child, write_leaf, new_leaf, insert_node,
  clear_leaf, delete_node,
}
use onchain_exchange_homewor.MerkleTree.Nodes.Paths.{
  path, find_child, changed, find_child-place_child, item_at, item_at-cons, item_below,
}

module _ {T : Type 0} where
  abbrev revised : (Node T → Node T) → Option (Node T) → Option (Node T)
  revised change none = none
  revised change (some n) = some (change n)

  pub find_child-revise_child :
      (i j : ℕ) (change : Node T → Node T) (kids : Children T)
      → find_child j (revise_child i change kids)
        ≡ (if i == j then revised change (find_child i kids) else find_child j kids)
  unfolding find_child revise_child
  find_child-revise_child i j change none_left = ground arith
  find_child-revise_child i j change (child k n rest) =
      ground (arith, find_child-revise_child i j change rest)

  module _ (hashable : Hashable T) where
    -- The same for a change that leaves nothing at the end of one path.
    item_at-revise_child :
        (i j : ℕ) (p : List ℕ) (b : Bool) (change : Node T → Node T) (c c' : Cell T)
        (kids : Children T)
        → ((n : Node T)
            → find_child j kids ≡ some n
            → item_at hashable p (change n) ≡ (if b then none else item_at hashable p n))
        → item_at hashable (i ∷ p) (node c' (revise_child j change kids))
          ≡ (if j == i && b then none else item_at hashable (i ∷ p) (node c kids))
    unfolding item_below
    item_at-revise_child i j p b change c c' kids below =
        item_at-cons hashable i p c' (revise_child j change kids)
        ∙ ap (item_below hashable p) (find_child-revise_child j i change kids)
        ∙ revise (Bool-cases (j == i))
        ∙ ap (λ o. if j == i && b then none else o) (sym (item_at-cons hashable i p c kids))
      where
        found :
            (o : Option (Node T))
            → find_child j kids ≡ o
            → item_below hashable p (revised change o)
              ≡ (if b then none else item_below hashable p o)
        found none e = ground arith
        found (some n) e = below n e

        revise :
            (j == i ≡ true) ⊎ (j == i ≡ false)
            → item_below hashable p
                (if j == i then revised change (find_child j kids) else find_child i kids)
              ≡ (if j == i && b then none else item_below hashable p (find_child i kids))
        revise (inl e) =
            let same : j ≡ i = ground arith in
            rw e (
              found (find_child j kids) refl
              ∙ ap (λ k. if b then none else item_below hashable p (find_child k kids)) same)
        revise (inr e) = rw e

    -- The nodes at the end of every path of that length are leaves.
    abbrev pub IsTree : ℕ → Node T → Type 0
    IsTree zero n = (cell n).is_leaf ≡ true
    IsTree (suc levels) n =
        (i : ℕ) (n' : Node T) → find_child i (children n) ≡ some n' → IsTree levels n'

    clear_leaf-item :
        (n : Node T) → (cell n).is_leaf ≡ true → item_at hashable [] (clear_leaf hashable n) ≡ none
    unfolding clear_leaf item_at
    clear_leaf-item (node c kids) h = rw h (rw (bytes_eq_refl (deleted_node_hash hashable)))

    -- In a tree whose leaves are all at its depth, a deletion leaves no item at the end of its
    -- path, and changes nothing at the end of any other path of that length.
    pub item_at-delete_node :
        (levels depth : ℕ) (item : T) (p : List ℕ) (n : Node T)
        → IsTree (suc levels) n
        → length p ≡ suc levels
        → item_at hashable p (delete_node hashable levels depth item n) ≡ (
            if bytes_eq (path levels depth (hashable.key item)) p
            then none
            else item_at hashable p n)
    unfolding delete_node bytes_eq
    item_at-delete_node levels depth item [] n t h = absurd (omega arith)
    item_at-delete_node zero depth item (i ∷ j ∷ p) n t h = absurd (omega arith)
    item_at-delete_node zero depth item (i ∷ []) (node c kids) t h =
        let idx = last_byte (hashable.key item) in
        item_at-revise_child i idx [] true (clear_leaf hashable) c
          (if has_child idx kids then mark_dirty c else c) kids
          (λ n e. clear_leaf-item n (t idx n e))
    item_at-delete_node (suc levels) depth item (i ∷ p) (node c kids) t h =
        let idx = get_or (hashable.key item) depth 0 in
        item_at-revise_child i idx p (bytes_eq (path levels (depth + 1) (hashable.key item)) p)
          (delete_node hashable levels (depth + 1) item) c
          (if has_child idx kids then mark_dirty c else c) kids
          (λ n e. item_at-delete_node levels (depth + 1) item p n (t idx n e) (omega arith))

    write_leaf-IsTree : (item : T) (n : Node T) → IsTree 0 n → IsTree 0 (write_leaf item n)
    unfolding write_leaf
    write_leaf-IsTree item (node c kids) h = h

    pub alloc-IsTree : (levels : ℕ) → IsTree (suc levels) (alloc hashable)
    unfolding alloc find_child
    alloc-IsTree levels i n e = cc

    place_child-IsTree :
        (levels j : ℕ) (change : Node T → Node T) (fresh : Node T) (c : Cell T) (kids : Children T)
        → ((n : Node T) → IsTree levels n → IsTree levels (change n))
        → IsTree levels fresh
        → IsTree (suc levels) (node c kids)
        → IsTree (suc levels) (node c (place_child j change fresh kids))
    place_child-IsTree levels j change fresh c kids keep new t i n e =
        at_child (Bool-cases (j == i)) (sym (find_child-place_child j i change fresh kids) ∙ e)
      where
        changed-IsTree :
            (o : Option (Node T)) → find_child j kids ≡ o → IsTree levels (changed change fresh o)
        changed-IsTree none found = new
        changed-IsTree (some n') found = keep n' (t j n' found)

        at_child :
            (j == i ≡ true) ⊎ (j == i ≡ false)
            → (if j == i
                then some (changed change fresh (find_child j kids))
                else find_child i kids)
              ≡ some n
            → IsTree levels n
        at_child (inl same) found =
            subst (IsTree levels) (some-injective _ _ (rw same at found))
              (changed-IsTree (find_child j kids) refl)
        at_child (inr other) found = t i n (rw other at found)

    -- Insertions keep the leaves at the depth of the tree.
    pub insert_node-IsTree :
        (levels depth : ℕ) (item : T) (n : Node T)
        → IsTree (suc levels) n
        → IsTree (suc levels) (insert_node hashable levels depth item n)
    unfolding insert_node
    insert_node-IsTree zero depth item (node c kids) t =
        place_child-IsTree 0 _ (write_leaf item) (new_leaf hashable item) c kids
          (write_leaf-IsTree item) refl t
    insert_node-IsTree (suc levels) depth item (node c kids) t =
        let below = insert_node-IsTree levels (depth + 1) item in
        place_child-IsTree (suc levels) _ (insert_node hashable levels (depth + 1) item)
          (insert_node hashable levels (depth + 1) item (alloc hashable)) c kids below
          (below (alloc hashable) (alloc-IsTree levels)) t
