-- ===== src/OrderBook/Tree.antt =====
-- The Verkle tree of verkle-orderbook/main.go: `buildSideTree` and `rebuildTree`. A node has a type
-- and up to 16 children.
pub mod Leaves
use onchain_exchange_homewor.Prelude.{
  ℕ, zero, suc, ◌+◌, ◌-◌, ◌/◌, Bool, List, [], ◌∷◌, ltb, leb, if◌then◌else◌, Map, take, drop,
  length, sort_by,
}
use onchain_exchange_homewor.OrderBook.Types.{PriceLevel, OrderBook}
use onchain_exchange_homewor.OrderBook.Orders.{verkle_width}
use onchain_exchange_homewor.OrderBook.Prices.{is_empty}

pub data NodeType : Type 0 where
  root buy_side sell_side price_group leaf : NodeType

-- A child of a node, and the list of the children that are set; the rest are empty.
mutual
  pub data Child : Type 0 where
    node : NodeType → Children → Child
    level : PriceLevel → Child

  pub data Children : Type 0 where
    nil : Children
    cons : Child → Children → Children

-- `SELL` levels ascend and `BUY` levels descend.
abbrev pub price_before : NodeType → PriceLevel → PriceLevel → Bool
price_before buy_side a b = ltb b.price a.price
price_before _ a b = ltb a.price b.price

-- The levels with volume, which the tree is built from.
unfoldable pub nonempty_levels : Map PriceLevel → List PriceLevel
nonempty_levels [] = []
nonempty_levels ((_, l) ∷ rest) =
    if ltb 0 l.total_volume then l ∷ nonempty_levels rest else nonempty_levels rest

unfoldable pub sorted_levels : NodeType → Map PriceLevel → List PriceLevel
unfolding nonempty_levels
sorted_levels side_type levels = sort_by (price_before side_type) (nonempty_levels levels)

unfoldable pub level_children : List PriceLevel → Children
level_children [] = nil
level_children (l ∷ ls) = cons (level l) (level_children ls)

-- The groups from one on: `i` groups may follow, each of at most `group_size` levels, of which the
-- node takes the first 16.
unfoldable pub group_children : ℕ → ℕ → List PriceLevel → Children
unfolding level_children
group_children i group_size [] = nil
group_children zero group_size (l ∷ ls) = nil
group_children (suc i) group_size (l ∷ ls) =
    cons (node price_group (level_children (take verkle_width (take group_size (l ∷ ls)))))
      (group_children i group_size (drop group_size (l ∷ ls)))

-- `(len(sortedLevels) + VERKLE_WIDTH - 1) / VERKLE_WIDTH`
abbrev pub group_size_of : ℕ → ℕ
group_size_of n = (n + verkle_width - 1) / verkle_width

-- The children of a side: the levels themselves up to 16 of them, else groups.
unfoldable pub side_children : List PriceLevel → Children
unfolding level_children group_children
side_children ls =
    if leb (length ls) verkle_width
    then level_children ls
    else group_children verkle_width (group_size_of (length ls)) ls

-- `buildSideTree`
unfoldable pub build_side_tree : NodeType → Map PriceLevel → Child
unfolding side_children sorted_levels
build_side_tree side_type levels = node side_type (side_children (sorted_levels side_type levels))

-- The two children of the root that `rebuildTree` sets; `none` is an empty side.
pub record Tree : Type 0 where
  pub bids : List Child
  pub asks : List Child

unfoldable pub side_child : NodeType → Map PriceLevel → List Child
unfolding build_side_tree
side_child side_type levels = if is_empty levels then [] else build_side_tree side_type levels ∷ []

-- `rebuildTree`
unfoldable pub rebuild_tree : OrderBook → Tree
unfolding side_child
rebuild_tree ob = record {
  bids = side_child buy_side ob.buy_levels;
  asks = side_child sell_side ob.sell_levels;
}
