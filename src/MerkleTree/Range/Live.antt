-- ===== src/MerkleTree/Range/Live.antt =====
-- The items that are in a tree, and those that range.go takes for such by the hashes of the leaves.
use mathlib.Core.Path.{ap₂}
use onchain_exchange_homewor.Prelude.{
  false, ◌&&◌, List, [], ◌∷◌, ◌++◌, if◌then◌else◌, ◌≡◌, refl, arith,
}
use onchain_exchange_homewor.MerkleTree.Types.{
  Hashable, deleted_node_hash, bytes_eq, Node, node, Children, none_left, child,
}
use onchain_exchange_homewor.MerkleTree.Nodes.Paths.{is_live}

module _ {T : Type 0} (hashable : Hashable T) where
  -- The items of the leaves that do not have the hash of deleted nodes.
  unfoldable mutual
    pub unmarked_values : Node T → List T
    unmarked_values (node c kids) =
        let below = unmarked_below kids in
        if c.is_leaf
        then (if bytes_eq c.hash (deleted_node_hash hashable) then [] else c.value ∷ [])
        else below

    pub unmarked_below : Children T → List T
    unmarked_below none_left = []
    unmarked_below (child k n rest) = unmarked_values n ++ unmarked_below rest

  -- The items that are in the tree: a leaf that is dirty has an item, whatever its hash.
  unfoldable mutual
    pub live_values : Node T → List T
    live_values (node c kids) =
        let below = live_below kids in
        if c.is_leaf then (if is_live hashable c then c.value ∷ [] else []) else below

    pub live_below : Children T → List T
    live_below none_left = []
    live_below (child k n rest) = live_values n ++ live_below rest

  -- No leaf is dirty and has the hash of deleted nodes.
  unfoldable mutual
    pub AreSettled : Node T → Type 0
    AreSettled (node c kids) =
        (c.is_leaf && (c.dirty && bytes_eq c.hash (deleted_node_hash hashable)) ≡ false)
        × AreSettledBelow kids

    pub AreSettledBelow : Children T → Type 0
    AreSettledBelow none_left = Unit
    AreSettledBelow (child k n rest) = AreSettled n × AreSettledBelow rest

  mutual
    unfolding live_values unmarked_values AreSettled

    pub live_values-AreSettled : (n : Node T) → AreSettled n → unmarked_values n ≡ live_values n
    live_values-AreSettled (node c kids) (leaf, below) =
        let same = live_below-AreSettled kids below in ground (arith, leaf, same)

    pub live_below-AreSettled :
        (kids : Children T) → AreSettledBelow kids → unmarked_below kids ≡ live_below kids
    live_below-AreSettled none_left h = refl
    live_below-AreSettled (child k n rest) (h, t) =
        ap₂ ◌++◌ (live_values-AreSettled n h) (live_below-AreSettled rest t)
