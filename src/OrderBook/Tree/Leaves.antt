-- ===== src/OrderBook/Tree/Leaves.antt =====
-- Which price levels the Verkle tree of a side holds.
use onchain_exchange_homewor.Prelude.{
  ℕ, zero, suc, ◌-◌, ◌*◌, ◌≤◌, ◌<◌, ◌≡◌, refl, ◌≢◌, ap, inl, inr, List, [], ◌∷◌, ◌++◌, arith,
  length, take, drop, leb, Bool-cases, length-append, take-append-drop, Map, sort_by, IsSorted,
  sort_by-IsSorted, Perm-sort_by,
}
use mathlib.Core.List.{Perm}
use onchain_exchange_homewor.OrderBook.Types.{PriceLevel}
use onchain_exchange_homewor.OrderBook.Orders.{verkle_width}
use onchain_exchange_homewor.OrderBook.Tree.{
  NodeType, root, buy_side, sell_side, price_group, leaf, price_before, nonempty_levels,
  sorted_levels, build_side_tree, Child, node, level, Children, nil, cons, level_children,
  group_children, group_size_of, side_children,
}

-- The levels of a tree, from left to right.
mutual
  pub leaves_of : Child → List PriceLevel
  leaves_of (node t cs) = leaves cs
  leaves_of (level l) = l ∷ []

  pub leaves : Children → List PriceLevel
  leaves nil = []
  leaves (cons c cs) = leaves_of c ++ leaves cs

leaves-level_children : (ls : List PriceLevel) → leaves (level_children ls) ≡ ls
unfolding leaves level_children
leaves-level_children [] = refl
leaves-level_children (l ∷ ls) = ap (◌∷◌ l) (leaves-level_children ls)

take_of_length-le : (n : ℕ) (ls : List PriceLevel) → length ls ≤ n → take n ls ≡ ls
take_of_length-le zero [] h = refl
take_of_length-le zero (l ∷ ls) h = absurd (omega arith)
take_of_length-le (suc n) [] h = refl
take_of_length-le (suc n) (l ∷ ls) h = ap (◌∷◌ l) (take_of_length-le n ls (omega arith))

length-take-le : (n : ℕ) (ls : List PriceLevel) → length (take n ls) ≤ n
length-take-le zero ls = omega arith
length-take-le (suc n) [] = omega arith
length-take-le (suc n) (l ∷ ls) = omega (arith, length-take-le n ls)

length-drop : (n : ℕ) (ls : List PriceLevel) → length (drop n ls) ≡ length ls - n
length-drop zero ls = omega arith
length-drop (suc n) [] = omega arith
length-drop (suc n) (l ∷ ls) = omega (arith, length-drop n ls)

-- Groups of at most 16 levels hold all of them, if there are enough groups.
leaves-group_children :
    (i g : ℕ) (ls : List PriceLevel)
    → g ≤ verkle_width
    → length ls ≤ i * g
    → leaves (group_children i g ls) ≡ ls
unfolding leaves group_children
leaves-group_children zero g [] h k = refl
leaves-group_children (suc i) g [] h k = refl
leaves-group_children zero g (l ∷ ls) h k = absurd (omega arith)
leaves-group_children (suc i) g (l ∷ ls) h k =
    let group = take g (l ∷ ls) in
    let rest = drop g (l ∷ ls) in
    let all : take verkle_width group ≡ group =
      take_of_length-le verkle_width group (omega (arith, length-take-le g (l ∷ ls))) in
    let ih : leaves (group_children i g rest) ≡ rest =
      leaves-group_children i g rest h (omega (arith, length-drop g (l ∷ ls))) in
    rw (leaves-level_children, all, ih) (take-append-drop g (l ∷ ls))

-- Each group holds at most 16.
length-leaves-group_children :
    (i g : ℕ) (ls : List PriceLevel) → length (leaves (group_children i g ls)) ≤ i * verkle_width
unfolding leaves group_children
length-leaves-group_children zero g [] = omega arith
length-leaves-group_children (suc i) g [] = omega arith
length-leaves-group_children zero g (l ∷ ls) = omega arith
length-leaves-group_children (suc i) g (l ∷ ls) =
    let group = take verkle_width (take g (l ∷ ls)) in
    rw leaves-level_children (
      omega (
        arith,
        length-append group (leaves (group_children i g (drop g (l ∷ ls)))),
        length-take-le verkle_width (take g (l ∷ ls)),
        length-leaves-group_children i g (drop g (l ∷ ls)),
      ))

-- The tree of a side with at most 256 levels holds them all, once each and in their order.
pub leaves-side_children : (ls : List PriceLevel) → length ls ≤ 256 → leaves (side_children ls) ≡ ls
unfolding side_children
leaves-side_children ls h = elim (Bool-cases (leb (length ls) verkle_width)) [
  | inl e ↦ rw (e, side_children) (leaves-level_children ls)
  | inr e ↦
      rw (e, side_children)
        (leaves-group_children verkle_width (group_size_of (length ls)) ls (omega arith)
          (omega arith))
]

-- Of more than 256 levels the tree leaves some out: it never holds more than 256.
pub length-leaves-side_children :
    (ls : List PriceLevel)
    → 256 < length ls
    → (length (leaves (side_children ls)) ≤ 256) × (leaves (side_children ls) ≢ ls)
unfolding side_children
length-leaves-side_children ls h = (bound, λ e. absurd (omega (arith, bound, ap length e)))
  where
    bound : length (leaves (side_children ls)) ≤ 256
    bound = elim (Bool-cases (leb (length ls) verkle_width)) [
      | inl e ↦ rw (e, side_children, leaves-level_children) (ground arith)
      | inr e ↦
          rw (e, side_children)
            (length-leaves-group_children verkle_width (group_size_of (length ls)) ls)
    ]

levels-IsSorted :
    (t : NodeType) (ls : List PriceLevel) → IsSorted (price_before t) (sort_by (price_before t) ls)
levels-IsSorted buy_side =
    sort_by-IsSorted (price_before buy_side) (λ x y h. ground arith) (λ x y z h k. ground arith)
levels-IsSorted root =
    sort_by-IsSorted (price_before root) (λ x y h. ground arith) (λ x y z h k. ground arith)
levels-IsSorted sell_side =
    sort_by-IsSorted (price_before sell_side) (λ x y h. ground arith) (λ x y z h k. ground arith)
levels-IsSorted price_group =
    sort_by-IsSorted (price_before price_group) (λ x y h. ground arith) (λ x y z h k. ground arith)
levels-IsSorted leaf =
    sort_by-IsSorted (price_before leaf) (λ x y h. ground arith) (λ x y z h k. ground arith)

-- `buildSideTree`, where at most 256 levels have volume: the leaves of the tree are those levels,
-- reordered, by falling price for the BUY side and by rising price for any other.
pub build_side_tree-leaves :
    (t : NodeType) (m : Map PriceLevel)
    → length (sorted_levels t m) ≤ 256
    → Perm (leaves_of (build_side_tree t m)) (nonempty_levels m)
      × IsSorted (price_before t) (leaves_of (build_side_tree t m))
unfolding build_side_tree sorted_levels leaves
build_side_tree-leaves t m h =
    rw (leaves-side_children (sorted_levels t m) h)
      (Perm-sort_by (price_before t) (nonempty_levels m), levels-IsSorted t (nonempty_levels m))
