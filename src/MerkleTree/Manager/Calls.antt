-- ===== src/MerkleTree/Manager/Calls.antt =====
-- The calls on a `TreeManager` one after the other, but for `RenameTree` and `RemoveAll`, which leave
-- roots of trees cached that are no longer there.
pub mod Names
pub mod Upkeep
pub mod Sound
use onchain_exchange_homewor.Prelude.{ℕ, Bool, false, some, List, ◌≡◌}
use onchain_exchange_homewor.MerkleTree.Types.{Hash}
use onchain_exchange_homewor.MerkleTree.Tree.{Config}
use onchain_exchange_homewor.SparseTree.Types.{find}
use onchain_exchange_homewor.MerkleTree.Manager.Interface.{Trees}
use onchain_exchange_homewor.MerkleTree.Manager.{
  returned, TreeManager, new_manager, set_tree, invalidate_global_root, invalidate_tree_root,
  create_tree, get_or_create_tree, create_tree_with_config, remove_tree, compute_global_root,
  unlocked,
}
use onchain_exchange_homewor.MerkleTree.Manager.Methods.{
  insert_to_tree, batch_insert_to_tree, clear_all, clear_tree_named, clone_tree, get_tree_root,
  get_from_tree, compute_all_roots, set_default_config,
}

module _ {T : Type 0} (ops : Trees T) (blake3 : List ℕ → Hash) where
  open ops use {
    Tree, new, insert, insert_batch, clear, compute_root, get, all_items, IsTree, new_lem,
    insert_lem, insert_batch_lem, clear_lem, get_lem, compute_root_lem,
  }

  -- A call, and the manager that it leaves; `changed` is a call on a tree by its pointer.
  pub data Call (m : TreeManager Tree) : TreeManager Tree → Type 0 where
    created : (name : List ℕ) → Call m (create_tree ops blake3 name m).1
    got_or_created : (name : List ℕ) → Call m (get_or_create_tree ops blake3 name m).1
    configured :
        (name : List ℕ) (cfg : Config) → Call m (create_tree_with_config ops blake3 name cfg m).1
    cloned :
        (source_name new_name : List ℕ) (done : Bool) (m' : TreeManager Tree)
        → clone_tree ops blake3 source_name new_name m ≡ some (done, m')
        → Call m m'
    removed : (name : List ℕ) → Call m (remove_tree ops blake3 name m).1
    inserted : (name : List ℕ) (item : T) → Call m (insert_to_tree ops blake3 name item m).1
    batch_inserted :
        (name : List ℕ) (items : List T) (done : Bool) (m' : TreeManager Tree)
        → batch_insert_to_tree ops blake3 name items m ≡ some (done, m')
        → Call m m'
    cleared : (name : List ℕ) → Call m (clear_tree_named ops blake3 name m).1
    all_cleared : Call m (clear_all ops blake3 m)
    root_read : (name : List ℕ) → Call m (get_tree_root ops blake3 name m).1
    all_read : Call m (compute_all_roots ops blake3 m).1
    item_read : (name : List ℕ) (id : ℕ) → Call m (get_from_tree ops blake3 name id m).1
    changed :
        (name : List ℕ) (t t' : Tree)
        → find name m.trees ≡ some t
        → IsTree t'
        → Call m (set_tree ops blake3 name t' m)
    invalidated : Call m (invalidate_global_root ops blake3 m)
    root_invalidated : (name : List ℕ) → Call m (invalidate_tree_root ops blake3 name m)
    default_set : (cfg : Config) → Call m (set_default_config ops blake3 cfg m)
    computed :
        (h : Hash) (m' : TreeManager Tree)
        → compute_global_root ops blake3 unlocked m ≡ returned (h, m')
        → Call m m'

  -- The managers that calls lead to from a new one.
  pub data Made : TreeManager Tree → Type 0 where
    started : (cfg : Config) → Made (new_manager ops blake3 cfg)
    called : {m m' : TreeManager Tree} → Made m → Call m m' → Made m'
