-- ===== src/MerkleTree/Range.antt =====
-- mt-manager/merkletree/range.go: the items of a tree between two keys, and keys as numbers.
pub mod Live
pub mod Keys
pub mod Tombstones
pub mod Parallel
use Prim.Native.Nat.{Ordering}
use onchain_exchange_homewor.Prelude.{
  ℕ, ◌+◌, ◌*◌, ◌/◌, ◌%◌, ◌-◌, Bool, true, false, ◌&&◌, ◌||◌, List, [], ◌∷◌, ◌++◌, ◌==◌, ltb,
  if◌then◌else◌, length, get_or, sort_by, u64_mod,
}
use onchain_exchange_homewor.MerkleTree.Types.{
  Hashable, deleted_node_hash, bytes_eq, Cell, Node, node, Children, none_left, child,
}

-- `compareKeys`: -1, 0 and 1 are `lt`, `eq` and `gt`.
unfoldable pub compare_keys : List ℕ → List ℕ → Ordering
compare_keys [] [] = Ordering.eq
compare_keys [] (y ∷ ys) = Ordering.lt
compare_keys (x ∷ xs) [] = Ordering.gt
compare_keys (x ∷ xs) (y ∷ ys) =
    if ltb x y then Ordering.lt else if ltb y x then Ordering.gt else compare_keys xs ys

-- `cmp > 0`, or `cmp >= 0` if the bound itself is meant too.
unfoldable pub is_above : Bool → Ordering → Bool
is_above inclusive Ordering.lt = false
is_above inclusive Ordering.eq = inclusive
is_above inclusive Ordering.gt = true

unfoldable pub is_below : Bool → Ordering → Bool
is_below inclusive Ordering.lt = true
is_below inclusive Ordering.eq = inclusive
is_below inclusive Ordering.gt = false

-- A query: the two keys, and whether each belongs to the range.
pub record Query : Type 0 where
  pub start_key : List ℕ
  pub end_key : List ℕ
  pub include_start : Bool
  pub include_end : Bool

unfoldable pub in_range : Query → List ℕ → Bool
unfolding compare_keys is_above is_below
in_range q key =
    is_above q.include_start (compare_keys key q.start_key)
    && is_below q.include_end (compare_keys key q.end_key)

-- `len(startKey) == 0 || len(endKey) == 0`
unfoldable pub is_void : Query → Bool
is_void q = length q.start_key == 0 || length q.end_key == 0

-- `idToKey`
unfoldable pub id_to_key : ℕ → List ℕ
id_to_key id =
    id / 0x100000000000000 % 256
    ∷ id / 0x1000000000000 % 256
    ∷ id / 0x10000000000 % 256
    ∷ id / 0x100000000 % 256
    ∷ id / 0x1000000 % 256
    ∷ id / 0x10000 % 256
    ∷ id / 0x100 % 256
    ∷ id % 256
    ∷ []

-- `keyToID`: the shifted bytes have no bit in common, so `|` is a sum.
unfoldable pub key_to_id : List ℕ → ℕ
key_to_id key =
    if ltb (length key) 8
    then 0
    else get_or key 0 0 * 0x100000000000000
      + get_or key 1 0 * 0x1000000000000
      + get_or key 2 0 * 0x10000000000
      + get_or key 3 0 * 0x100000000
      + get_or key 4 0 * 0x1000000
      + get_or key 5 0 * 0x10000
      + get_or key 6 0 * 0x100
      + get_or key 7 0

abbrev pub gather : {T : Type 0} → List (List T) → List T
gather [] = []
gather (batch ∷ rest) = batch ++ gather rest

module _ {T : Type 0} (hashable : Hashable T) where
  -- A leaf: a deleted one is told by its hash.
  unfoldable pub range_query_leaf : Query → Cell T → List T
  unfolding in_range
  range_query_leaf q c =
      if bytes_eq c.hash (deleted_node_hash hashable)
      then []
      else if in_range q (hashable.key c.value)
      then c.value ∷ []
      else []

  -- `rangeQueryNode`: what it appends to the result.
  unfoldable mutual
    unfolding range_query_leaf

    pub range_query_node : Query → Node T → List T
    range_query_node q (node c kids) =
        let below = range_query_children q kids in if c.is_leaf then range_query_leaf q c else below

    pub range_query_children : Query → Children T → List T
    range_query_children q none_left = []
    range_query_children q (child k n rest) = range_query_node q n ++ range_query_children q rest

  -- `result[i].ID() < result[j].ID()`
  abbrev pub id_before : T → T → Bool
  id_before x y = ltb (hashable.id x) (hashable.id y)

  -- `RangeQuery`
  unfoldable pub range_query : Query → Node T → List T
  unfolding range_query_node is_void
  range_query q root = if is_void q then [] else sort_by id_before (range_query_node q root)

  -- The results of the children of the root, one for each goroutine or task. The code does not send
  -- an empty one; it would add nothing.
  unfoldable pub child_results : Query → Children T → List (List T)
  child_results q none_left = []
  child_results q (child k n rest) = range_query_node q n ∷ child_results q rest

  -- `RangeQueryParallel` and `RangeQueryWorkerPool`, for the order in which the results of the
  -- children arrive.
  unfoldable pub range_query_parallel : Query → List (List T) → List T
  unfolding is_void
  range_query_parallel q arrived = if is_void q then [] else sort_by id_before (gather arrived)

  -- `RangeQueryAuto`: `endID - startID` wraps.
  unfoldable pub range_query_auto : Query → List (List T) → Node T → List T
  unfolding is_void key_to_id range_query_parallel range_query
  range_query_auto q arrived root =
      let size = (key_to_id q.end_key + u64_mod - key_to_id q.start_key) % u64_mod in
      if is_void q
      then []
      else if ltb 1000 size
      then range_query_parallel q arrived
      else range_query q root

  -- `RangeQueryByID`
  unfoldable pub range_query_by_id : ℕ → ℕ → Bool → Bool → Node T → List T
  unfolding range_query id_to_key
  range_query_by_id start_id end_id include_start include_end root =
      let q : Query = record {
        start_key = id_to_key start_id;
        end_key = id_to_key end_id;
        include_start = include_start;
        include_end = include_end;
      } in
      range_query q root
