-- ===== src/MerkleTree/Nodes/Paths.antt =====
-- Where an item stands in a tree, and what an insertion changes there.
use onchain_exchange_homewor.Prelude.{
  ℕ, zero, suc, ◌+◌, Bool, true, false, not, ◌||◌, ◌&&◌, Option, none, some, List, [], ◌∷◌, ◌==◌,
  ◌≡◌, if◌then◌else◌, length, get_or, arith, refl, Bool-cases, inl, inr, ◌⊎◌, Option-cases, sym, ap,
  ◌∙◌,
}
use onchain_exchange_homewor.MerkleTree.Types.{
  Hashable, deleted_node_hash, bytes_eq, Cell, Node, node, Children, none_left, child, alloc,
}
use onchain_exchange_homewor.MerkleTree.Nodes.{
  last_byte, mark_dirty, place_child, write_leaf, new_leaf, insert_node,
}

-- The bytes of a key by which a tree is descended: the first ones, and the last one.
abbrev pub path : ℕ → ℕ → List ℕ → List ℕ
path zero depth key = last_byte key ∷ []
path (suc levels) depth key = get_or key depth 0 ∷ path levels (depth + 1) key

module _ {T : Type 0} where
  unfoldable pub find_child : ℕ → Children T → Option (Node T)
  find_child idx none_left = none
  find_child idx (child k n rest) = if k == idx then some n else find_child idx rest

  abbrev pub changed : (Node T → Node T) → Node T → Option (Node T) → Node T
  changed change fresh none = fresh
  changed change fresh (some n) = change n

  pub find_child-place_child :
      (i j : ℕ) (change : Node T → Node T) (fresh : Node T) (kids : Children T)
      → find_child j (place_child i change fresh kids)
        ≡ (if i == j then some (changed change fresh (find_child i kids)) else find_child j kids)
  unfolding find_child place_child
  find_child-place_child i j change fresh none_left = refl
  find_child-place_child i j change fresh (child k n rest) =
      ground (arith, find_child-place_child i j change fresh rest)

  module _ (hashable : Hashable T) where
    -- A leaf counts unless it is clean and has the hash of deleted nodes.
    abbrev pub is_live : Cell T → Bool
    is_live c = c.dirty || not (bytes_eq c.hash (deleted_node_hash hashable))

    -- The item of the leaf at the end of a path.
    unfoldable pub item_at : List ℕ → Node T → Option T
    unfolding find_child
    item_at [] (node c kids) = if is_live c then some c.value else none
    item_at (i ∷ p) (node c kids) = elim (find_child i kids) [ none ↦ none | some n ↦ item_at p n ]

    unfoldable pub item_below : List ℕ → Option (Node T) → Option T
    item_below p none = none
    item_below p (some n) = item_at p n

    pub item_at-cons :
        (i : ℕ) (p : List ℕ) (c : Cell T) (kids : Children T)
        → item_at (i ∷ p) (node c kids) ≡ item_below p (find_child i kids)
    unfolding item_at item_below
    item_at-cons i p c kids = elim (Option-cases (find_child i kids)) [
      | inl e ↦ rw (e, item_at)
      | inr e ↦ rw (e.1, item_at)
    ]

    bytes_eq-cons : (i j : ℕ) (p q : List ℕ) → bytes_eq (i ∷ p) (j ∷ q) ≡ (i == j && bytes_eq p q)
    unfolding bytes_eq
    bytes_eq-cons i j p q = refl

    -- What a change below one child does to the items at the ends of the paths.
    module _ (i j : ℕ) (p : List ℕ) (b : Bool) (r : Option T) (change : Node T → Node T)
        (below : (n : Node T) → item_at p (change n) ≡ (if b then r else item_at p n)) where
      below-place :
          (fresh : Node T)
          → item_at p fresh ≡ (if b then r else none)
          → (o : Option (Node T))
          → item_at p (changed change fresh o) ≡ (if b then r else item_below p o)
      unfolding item_below
      below-place fresh new none = new
      below-place fresh new (some n) = below n

      item_at-place_child :
          (fresh : Node T) (c c' : Cell T) (kids : Children T)
          → item_at p fresh ≡ (if b then r else none)
          → item_at (i ∷ p) (node c' (place_child j change fresh kids))
            ≡ (if j == i && b then r else item_at (i ∷ p) (node c kids))
      unfolding item_below
      item_at-place_child fresh c c' kids new =
          item_at-cons i p c' (place_child j change fresh kids)
          ∙ ap (item_below p) (find_child-place_child j i change fresh kids)
          ∙ place (Bool-cases (j == i))
        where
          place :
              (j == i ≡ true) ⊎ (j == i ≡ false)
              → item_below p (
                  if j == i
                  then some (changed change fresh (find_child j kids))
                  else find_child i kids)
                ≡ (if j == i && b then r else item_at (i ∷ p) (node c kids))
          place (inl e) =
              let same : j ≡ i = ground arith in
              rw e
                (rw same (rw (item_at-cons i p c kids) (below-place fresh new (find_child i kids))))
          place (inr e) = rw e (sym (item_at-cons i p c kids))

    write_leaf-item : (item : T) (n : Node T) → item_at [] (write_leaf item n) ≡ some item
    unfolding write_leaf item_at
    write_leaf-item item (node c kids) = refl

    new_leaf-item : (item : T) → item_at [] (new_leaf hashable item) ≡ some item
    unfolding new_leaf item_at
    new_leaf-item item = refl

    item_at-alloc :
        {levels : ℕ} (p : List ℕ) → length p ≡ suc levels → item_at p (alloc hashable) ≡ none
    unfolding alloc item_at
    item_at-alloc [] h = absurd (omega arith)
    item_at-alloc (i ∷ p) h = refl

    -- An insertion puts its item at the end of its path, and leaves what is at the end of any other
    -- path of that length.
    pub item_at-insert_node :
        (levels depth : ℕ) (item : T) (p : List ℕ) (n : Node T)
        → length p ≡ suc levels
        → item_at p (insert_node hashable levels depth item n)
          ≡ (if bytes_eq (path levels depth (hashable.key item)) p then some item else item_at p n)
    unfolding insert_node bytes_eq
    item_at-insert_node levels depth item [] n h = absurd (omega arith)
    item_at-insert_node zero depth item (i ∷ j ∷ p) n h = absurd (omega arith)
    item_at-insert_node zero depth item (i ∷ []) (node c kids) h =
        item_at-place_child i (last_byte (hashable.key item)) [] true (some item) (write_leaf item)
          (write_leaf-item item) (new_leaf hashable item) c (mark_dirty c) kids (new_leaf-item item)
    item_at-insert_node (suc levels) depth item (i ∷ p) (node c kids) h =
        let below = item_at-insert_node levels (depth + 1) item p in
        let short : length p ≡ suc levels = omega arith in
        let there = bytes_eq (path levels (depth + 1) (hashable.key item)) p in
        item_at-place_child i (get_or (hashable.key item) depth 0) p there (some item)
          (insert_node hashable levels (depth + 1) item) (λ n. below n short)
          (insert_node hashable levels (depth + 1) item (alloc hashable)) c (mark_dirty c) kids
          (below (alloc hashable) short
            ∙ ap (λ o. if there then some item else o) (item_at-alloc p short))
