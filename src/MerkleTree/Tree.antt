-- ===== src/MerkleTree/Tree.antt =====
-- The trees of mt-manager/merkletree/tree.go: the items by ID, the nodes, the cached root, the
-- cache of items and the two caches of first items. Each method runs alone; where the code starts
-- goroutines, the order in which they reach the items is an argument.
pub mod Steps
pub mod Roots
pub mod Reads
pub mod Answers
use onchain_exchange_homewor.Prelude.{
  ℕ, ◌+◌, ◌-◌, ◌*◌, ◌%◌, Bool, true, false, Option, none, some, List, [], ◌∷◌, ◌==◌, ltb, ◌&&◌,
  if◌then◌else◌, length, get_or, add64, u64_mod, Map, lookup, insert, erase,
}
use onchain_exchange_homewor.MerkleTree.Types.{
  Hash, zero_hash, Hashable, Node, alloc, cell, children,
}
use onchain_exchange_homewor.MerkleTree.Nodes.{insert_node, delete_node}
use onchain_exchange_homewor.MerkleTree.Nodes.Paths.{path, find_child}
use onchain_exchange_homewor.MerkleTree.Hashing.{compute_node_hash}
use onchain_exchange_homewor.MerkleTree.TopN.{TopNCache, new_top_n_cache, try_insert, remove, clear}
use onchain_exchange_homewor.MerkleTree.Cache.{Cache}

-- `Config`, without the sizes of the cache of items.
pub record Config : Type 0 where
  pub max_depth : ℕ
  pub top_n : ℕ

-- `DefaultConfig`
abbrev pub default_config : Config
default_config = record { max_depth = 3; top_n = 0 }

abbrev pub parallel_batch_threshold : ℕ
parallel_batch_threshold = 150

-- `Tree`, with the counters that its methods read or return.
pub record Tree (T C : Type 0) : Type 0 where
  pub root : Node T
  pub items : Map T
  pub item_count : ℕ
  pub cache : C
  pub max_depth : ℕ
  pub top_min_cache : TopNCache T
  pub top_max_cache : TopNCache T
  pub cached_root : Hash
  pub root_cache_valid : Bool
  pub deleted_node_count : ℕ
  pub get_count : ℕ

-- `groupKey` of `insertBatchMegaParallel`: by one byte of the key or by two.
unfoldable pub group_key : ℕ → List ℕ → ℕ
group_key group_size key =
    if group_size == 256 then get_or key 0 0 else get_or key 0 0 * 256 + get_or key 1 0

unfoldable pub group_size_of : ℕ → ℕ
group_size_of count = if ltb 10000 count then 4096 else 256

module _ {T : Type 0} (hashable : Hashable T) (cache : Cache T) where
  open cache use {State, empty, put, try_get, delete as cache_delete}

  abbrev pub levels_of : ℕ → ℕ
  levels_of max_depth = max_depth - 1

  -- `New`
  unfoldable pub new : Config → Tree T State
  new cfg = record {
    root = alloc hashable;
    items = [];
    item_count = 0;
    cache = empty;
    max_depth = cfg.max_depth;
    top_min_cache = new_top_n_cache cfg.top_n true;
    top_max_cache = new_top_n_cache cfg.top_n false;
    cached_root = zero_hash;
    root_cache_valid = false;
    deleted_node_count = 0;
    get_count = 0;
  }

  -- The maps and caches of an insertion.
  unfoldable pub store_item : T → Tree T State → Tree T State
  store_item item t = record t {
    items = insert (hashable.id item) item t.items;
    cache = put (hashable.id item) item t.cache;
    top_min_cache = (try_insert hashable item t.top_min_cache).1;
    top_max_cache = (try_insert hashable item t.top_max_cache).1;
  }

  unfoldable pub place_item : T → Tree T State → Tree T State
  place_item item t = record t { root = insert_node hashable (levels_of t.max_depth) 0 item t.root }

  -- `Insert`
  unfoldable pub insert_item : T → Tree T State → Tree T State
  unfolding store_item place_item
  insert_item item t = record (place_item item (store_item item t)) {
    item_count = add64 t.item_count 1;
    root_cache_valid = false;
  }

  unfoldable pub store_items : List T → Tree T State → Tree T State
  unfolding store_item
  store_items [] t = t
  store_items (item ∷ rest) t = store_items rest (store_item item t)

  unfoldable pub place_items : List T → Tree T State → Tree T State
  unfolding place_item
  place_items [] t = t
  place_items (item ∷ rest) t = place_items rest (place_item item t)

  -- `insertBatchSimple`, `insertBatchSequential` and `insertBatchParallel`, for the orders in which
  -- the items are stored and placed.
  unfoldable pub insert_stored : List T → List T → Tree T State → Tree T State
  unfolding store_items place_items
  insert_stored stored placed t = record (place_items placed (store_items stored t)) {
    item_count = add64 t.item_count (length stored);
    root_cache_valid = false;
  }

  -- The loop that groups the items: an index that is not in range is a panic.
  unfoldable pub fits_groups : ℕ → List T → Bool
  unfolding group_key
  fits_groups group_size [] = true
  fits_groups group_size (item ∷ rest) =
      ltb (group_key group_size (hashable.key item)) group_size && fits_groups group_size rest

  -- `InsertBatch`; `none` is a panic.
  unfoldable pub insert_batch : List T → List T → List T → Tree T State → Option (Tree T State)
  insert_batch items stored placed t =
      if length items == 0
      then some t
      else if ltb (length items) parallel_batch_threshold
      then some (insert_stored items items t)
      else if ltb (length items) 5000
      then some (insert_stored stored placed t)
      else if fits_groups (group_size_of (length items)) items
      then some (insert_stored stored placed t)
      else none

  -- Whether `deleteNode` finds a leaf to clear.
  unfoldable pub clears : List ℕ → Node T → Bool
  clears [] n = (cell n).is_leaf
  clears (i ∷ p) n = elim (find_child i (children n)) [ none ↦ false | some n' ↦ clears p n' ]

  -- The maps and caches of a deletion.
  unfoldable pub drop_item : ℕ → T → Tree T State → Tree T State
  drop_item id item t = record t {
    items = erase id t.items;
    cache = cache_delete id t.cache;
    top_min_cache = (remove hashable item t.top_min_cache).1;
    top_max_cache = (remove hashable item t.top_max_cache).1;
  }

  unfoldable pub clear_item : T → Tree T State → Tree T State
  unfolding clears
  clear_item item t =
      let levels = levels_of t.max_depth in
      let found = clears (path levels 0 (hashable.key item)) t.root in
      record t {
        root = delete_node hashable levels 0 item t.root;
        deleted_node_count = if found then add64 t.deleted_node_count 1 else t.deleted_node_count;
      }

  -- `Delete`: adding `^uint64(0)` takes one off.
  unfoldable pub delete_item : ℕ → Tree T State → Bool × Tree T State
  delete_item id t = elim (lookup id t.items) [
    | none ↦ (false, t)
    | some item ↦ (
      true,
      record (clear_item item (drop_item id item t)) {
        item_count = (t.item_count + (u64_mod - 1)) % u64_mod;
        root_cache_valid = false;
      },
    )
  ]

  -- The first loop of `DeleteBatch`: the items that are found, in order.
  unfoldable pub drop_items : List ℕ → Tree T State → List T × Tree T State
  unfolding drop_item
  drop_items [] t = ([], t)
  drop_items (id ∷ ids) t = elim (lookup id t.items) [
    | none ↦ drop_items ids t
    | some item ↦ let (found, t') = drop_items ids (drop_item id item t) in (item ∷ found, t')
  ]

  unfoldable pub clear_items : List T → Tree T State → Tree T State
  unfolding clear_item
  clear_items [] t = t
  clear_items (item ∷ rest) t = clear_items rest (clear_item item t)

  -- `DeleteBatch`, for the order in which the items that were found are cleared: the number of
  -- them. Adding `^uint64(deleted-1)` takes it off.
  unfoldable pub delete_batch : List ℕ → (List T → List T) → Tree T State → ℕ × Tree T State
  delete_batch ids order t =
      let (found, t') = drop_items ids t in
      if length found == 0 then (0, t') else (
        length found,
        record (clear_items (order found) t') {
          item_count = (t.item_count + (u64_mod - length found)) % u64_mod;
          root_cache_valid = false;
        },
      )

  -- `Clear`
  unfoldable pub clear_tree : Tree T State → Tree T State
  clear_tree t = record t {
    root = alloc hashable;
    items = [];
    item_count = 0;
    cache = empty;
    top_min_cache = clear t.top_min_cache;
    top_max_cache = clear t.top_max_cache;
    root_cache_valid = false;
    deleted_node_count = 0;
  }

  -- `ComputeRoot`: with nobody else at work the first `CompareAndSwap` succeeds.
  unfoldable pub compute_root : Tree T State → Hash × Tree T State
  compute_root t =
      let (h, root) = compute_node_hash hashable t.root in
      if t.root_cache_valid
      then (t.cached_root, t)
      else (h, record t { root = root; cached_root = h; root_cache_valid = true })

  -- `Get`: every hundredth call renews the item in the cache.
  unfoldable pub get : ℕ → Tree T State → Option T × Tree T State
  get id t =
      let t' : Tree T State = record t { get_count = add64 t.get_count 1 } in
      elim (try_get id t.cache) [
        | some item ↦ (
          some item,
          if t'.get_count % 100 == 0 then record t' { cache = put id item t.cache } else t',
        )
        | none ↦ elim (lookup id t.items) [
          | some item ↦ (some item, record t' { cache = put id item t.cache })
          | none ↦ (none, t')
        ]
      ]
