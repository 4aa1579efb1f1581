-- ===== src/MerkleTree/Manager/Backing.antt =====
-- The trees of mt-manager/merkletree/tree.go as those of a manager. The goroutines of a batch take
-- the items in two orders, and `GetAllItems` lists the items in another.
use onchain_exchange_homewor.Prelude.{false, List, map, ◌≡◌}
use mathlib.Core.List.{Perm}
use onchain_exchange_homewor.MerkleTree.Types.{zero_hash, deleted_node_hash, bytes_eq, Hashable}
use onchain_exchange_homewor.MerkleTree.Cache.{Cache}
use onchain_exchange_homewor.MerkleTree.Hashing.Caching.{node_hash}
use onchain_exchange_homewor.MerkleTree.Tree.{
  Config, Tree, new, insert_item, insert_batch, clear_tree, compute_root, get,
}
use onchain_exchange_homewor.MerkleTree.Tree.Steps.{
  inserted, batch_inserted, cleared, computed, read, Reach, started, called,
}
use onchain_exchange_homewor.MerkleTree.Tree.Roots.{compute_root-node_hash}
use onchain_exchange_homewor.MerkleTree.Manager.Interface.{Trees}

module _ {T : Type 0} (hashable : Hashable T) (cache : Cache T) where
  open cache use {State}

  abbrev pub managed :
      bytes_eq (deleted_node_hash hashable) zero_hash ≡ false
      → (stored placed listed : List T → List T) → ((items : List T) → Perm (stored items) items)
      → ((items : List T) → Perm (placed items) items)
      → Trees T
  managed apart stored placed listed stores places = record {
    Tree = Tree T State;
    new = new hashable cache;
    insert = insert_item hashable cache;
    insert_batch = λ items t. insert_batch hashable cache items (stored items) (placed items) t;
    clear = clear_tree hashable cache;
    compute_root = compute_root hashable cache;
    get = get hashable cache;
    size = λ t. t.item_count;
    all_items = λ t. listed (map (λ e. e.1) t.items);
    IsTree = λ t. (cfg : Config) × Reach hashable cache cfg t;
    root_of = λ t. node_hash hashable t.root;
    new_lem = λ cfg. (cfg, started);
    insert_lem = λ item t h. (h.0, called h.1 (inserted item t));
    insert_batch_lem = λ items t t' h e. (
      h.0,
      called h.1
          (batch_inserted items (stored items) (placed items) t t' (stores items) (places items) e),
    );
    clear_lem = λ t h. (h.0, called h.1 (cleared t));
    get_lem = λ id t h. (h.0, called h.1 (read id t));
    compute_root_lem = λ t h.
        let (same, kept) = compute_root-node_hash hashable cache apart h.1 in
        (same, (h.0, called h.1 (computed t)), kept);
  }
