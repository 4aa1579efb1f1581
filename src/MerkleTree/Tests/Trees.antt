-- ===== src/MerkleTree/Tests/Trees.antt =====
-- The theorems on trees after calls on a tree of balances.
use onchain_exchange_homewor.Prelude.{some, none, ◌==◌, if◌then◌else◌, ◌≡◌, refl}
use onchain_exchange_homewor.Models.Balance.{Balance, balance_id}
use onchain_exchange_homewor.MerkleTree.Types.{bytes_eq, deleted_node_hash}
use onchain_exchange_homewor.MerkleTree.Cache.{Cache}
use onchain_exchange_homewor.MerkleTree.Hashing.Caching.{node_hash}
use onchain_exchange_homewor.MerkleTree.Tree.{
  get, Tree, default_config, new, insert_item, delete_item, compute_root,
}
use onchain_exchange_homewor.MerkleTree.Tree.Steps.{
  Reach, inserted, deleted, computed, started, called,
}
use onchain_exchange_homewor.MerkleTree.Tree.Roots.{compute_root-node_hash}
use onchain_exchange_homewor.MerkleTree.Tree.Answers.{is_some, get-insert_item, get-delete_item}
use onchain_exchange_homewor.MerkleTree.Shards.Laws.{sharded_cache}
use onchain_exchange_homewor.MerkleTree.Tests.Items.{third, balances, first, second}

abbrev pub items_cache : Cache Balance
items_cache = sharded_cache 100 2

-- Two balances are inserted, the root is computed, and one of the balances is deleted.
abbrev filled : Tree Balance (items_cache.State)
filled =
    insert_item balances items_cache second
      (insert_item balances items_cache first (new balances items_cache default_config))

abbrev changed : Tree Balance (items_cache.State)
changed = (delete_item balances items_cache 2 (compute_root balances items_cache filled).1).1

changed-Reach : Reach balances items_cache default_config changed
changed-Reach =
    called (called (called (called started (inserted _ _)) (inserted _ _)) (computed _))
      (deleted 2 _)

compute_root-node_hash_example :
    ((compute_root balances items_cache changed).0 ≡ node_hash balances changed.root)
    × (node_hash balances (compute_root balances items_cache changed).1.root
        ≡ node_hash balances changed.root)
unfolding bytes_eq deleted_node_hash
compute_root-node_hash_example = compute_root-node_hash balances items_cache refl changed-Reach

get-insert_item_example :
    (get balances items_cache 1 (insert_item balances items_cache third changed)).0
    ≡ (if balance_id third == 1 then some third else (get balances items_cache 1 changed).0)
get-insert_item_example = get-insert_item balances items_cache 1 third changed-Reach

get-delete_item_example :
    ((get balances items_cache 2 (delete_item balances items_cache 1 changed).1).0
      ≡ (if 1 == 2 then none else (get balances items_cache 2 changed).0))
    × ((delete_item balances items_cache 1 changed).0
        ≡ is_some (get balances items_cache 1 changed).0)
get-delete_item_example = get-delete_item balances items_cache 1 2 changed-Reach
