-- ===== src/MerkleTree/Tests/Nodes.antt =====
-- The theorems on nodes, range queries and the cache of first items, at two balances.
use onchain_exchange_homewor.Prelude.{
  true, false, some, [], ◌∷◌, ◌≡◌, arith, refl, map, take, sort_by, select, All,
}
use mathlib.Core.List.{Perm}
use mathlib.Core.List.Perm
use onchain_exchange_homewor.Models.Bytes.{put_be}
use onchain_exchange_homewor.Models.Balance.{new_balance, balance_id, id_of}
use onchain_exchange_homewor.MerkleTree.Types.{deleted_node_hash, bytes_eq, alloc, cell, children}
use onchain_exchange_homewor.MerkleTree.Nodes.{insert_node, delete_node}
use onchain_exchange_homewor.MerkleTree.Nodes.Paths.{path, item_at}
use onchain_exchange_homewor.MerkleTree.Nodes.Delete.{IsTree, alloc-IsTree, insert_node-IsTree}
use onchain_exchange_homewor.MerkleTree.Nodes.Collide.{insert_node-overwrite, path-collision}
use onchain_exchange_homewor.MerkleTree.TopN.{new_top_n_cache, get_top, key_of, precedes}
use onchain_exchange_homewor.MerkleTree.TopN.Keys.{after_inserts, get_top-keys}
use onchain_exchange_homewor.MerkleTree.Range.{
  Query, id_before, range_query, range_query_node, range_query_parallel, range_query_auto,
  range_query_by_id, child_results, id_to_key,
}
use onchain_exchange_homewor.MerkleTree.Range.Live.{live_values, AreSettled}
use onchain_exchange_homewor.MerkleTree.Range.Keys.{HasIdKey, in_id_range, range_query_by_id-select}
use onchain_exchange_homewor.MerkleTree.Range.Tombstones.{range_query_node-tombstone}
use onchain_exchange_homewor.MerkleTree.Range.Parallel.{range_query_auto-Perm}
use onchain_exchange_homewor.MerkleTree.Tests.Items.{balances, first, second, third, root}

root-IsTree : IsTree balances 3 root
root-IsTree =
    insert_node-IsTree balances 2 0 second _
      (insert_node-IsTree balances 2 0 first _ (alloc-IsTree balances 2))

same_path : path 2 0 third.key ≡ path 2 0 first.key
unfolding new_balance balance_id id_of
same_path = path-collision 257 1 (omega arith) (omega arith) refl

insert_node-overwrite_example :
    insert_node balances 2 0 third (insert_node balances 2 0 first (alloc balances))
    ≡ insert_node balances 2 0 third (alloc balances)
insert_node-overwrite_example =
    insert_node-overwrite balances 2 0 third first (alloc balances) same_path

first_there : item_at balances (path 2 0 first.key) root ≡ some first
unfolding item_at insert_node new_balance put_be id_of
first_there = refl

root_inner : (cell root).is_leaf ≡ false
unfolding insert_node
root_inner = refl

root_keys : All (HasIdKey balances) (live_values balances root)
unfolding live_values insert_node new_balance put_be id_of bytes_eq deleted_node_hash balance_id
root_keys =
    (record { key = refl; fits = omega arith }, (record { key = refl; fits = omega arith }, _))

get_top-keys_example :
    map
      (key_of balances)
      (get_top 1 (after_inserts balances true (second ∷ first ∷ []) (new_top_n_cache 2 true)))
    ≡ take 1 (sort_by (precedes true) (map (key_of balances) (second ∷ first ∷ [])))
get_top-keys_example =
    get_top-keys balances true 2 1 (second ∷ first ∷ []) (omega arith) (omega arith)

-- All keys up to that of the number 1000.
abbrev query : Query
query = record {
  start_key = id_to_key 0;
  end_key = id_to_key 1000;
  include_start = true;
  include_end = true;
}

range_query_node-tombstone_example :
    range_query_node balances query
      (insert_node balances 2 0 first (delete_node balances 2 0 first root))
    ≡ range_query_node balances query (delete_node balances 2 0 first root)
range_query_node-tombstone_example =
    range_query_node-tombstone balances query 2 0 first first first root root-IsTree refl
      first_there

range_query_auto-Perm_example :
    Perm
      (range_query_parallel balances query (child_results balances query (children root)))
      (range_query balances query root)
    × Perm
        (range_query_auto balances query (child_results balances query (children root)) root)
        (range_query balances query root)
range_query_auto-Perm_example =
    range_query_auto-Perm balances query root (child_results balances query (children root))
      root_inner (Perm.refl _)

root_settled : AreSettled balances root
unfolding AreSettled insert_node new_balance put_be bytes_eq deleted_node_hash
root_settled = ground arith

range_query_by_id-select_example :
    range_query_by_id balances 1 2 true false root
    ≡ sort_by
        (id_before balances)
        (select (λ x. in_id_range 1 2 true false (balance_id x)) (live_values balances root))
range_query_by_id-select_example =
    range_query_by_id-select balances 1 2 true false (omega arith) (omega arith) root root_settled
      root_keys
