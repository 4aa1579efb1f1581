-- ===== src/MerkleTree/Tests/Managers.antt =====
-- The theorems on managers, for two trees of balances.
use onchain_exchange_homewor.Prelude.{
  true, false, Option, none, some, [], ◌∷◌, ◌≡◌, ◌⊎◌, refl, ap, sym, ◌∙◌,
}
use mathlib.Core.List.Perm
use onchain_exchange_homewor.SparseTree.Types.{find}
use onchain_exchange_homewor.Models.Balance.{Balance}
use onchain_exchange_homewor.MerkleTree.Types.{Hash, bytes_eq, deleted_node_hash, zero_hash}
use onchain_exchange_homewor.MerkleTree.Tree.{default_config}
use onchain_exchange_homewor.MerkleTree.Manager.Interface.{Trees}
use onchain_exchange_homewor.MerkleTree.Manager.Backing.{managed}
use onchain_exchange_homewor.MerkleTree.Manager.{
  Ended, returned, get_tree, deadlock, TreeManager, new_manager, create_tree,
  create_tree_with_config, compute_global_root, unlocked,
}
use onchain_exchange_homewor.MerkleTree.Manager.Methods.{
  insert_to_tree, remove_all, get_merkle_proof,
}
use onchain_exchange_homewor.MerkleTree.Manager.Loops.{roots}
use onchain_exchange_homewor.MerkleTree.Manager.Current.{global_root_of}
use onchain_exchange_homewor.MerkleTree.Manager.Calls.{
  created, configured, inserted, Made, started, called,
}
use onchain_exchange_homewor.MerkleTree.Manager.Laws.{
  compute_global_root-global_root_of, IsIncluded, verify_tree_inclusion-compute_global_root,
  remove_all-compute_global_root,
}
use onchain_exchange_homewor.MerkleTree.Manager.Waits.{
  is_up_to_date, get_merkle_proof-is_up_to_date,
}
use onchain_exchange_homewor.MerkleTree.Tests.Items.{balances, first, second}
use onchain_exchange_homewor.MerkleTree.Tests.Trees.{items_cache}
use onchain_exchange_homewor.MerkleTree.Tests.Proofs.{first_32}

deleted_apart : bytes_eq (deleted_node_hash balances) zero_hash ≡ false
unfolding bytes_eq deleted_node_hash
deleted_apart = refl

abbrev trees : Trees Balance
trees =
    managed balances items_cache deleted_apart (λ bs. bs) (λ bs. bs) (λ bs. bs) (λ bs. Perm.refl _)
      (λ bs. Perm.refl _)

open trees use {Tree}

-- A tree with two balances, and an empty one that does not make the global root dirty.
abbrev one_tree : TreeManager Tree
one_tree = (create_tree trees first_32 (97 ∷ []) (new_manager trees first_32 default_config)).1

abbrev one_filled : TreeManager Tree
one_filled =
    (insert_to_tree trees first_32 (97 ∷ []) second
      (insert_to_tree trees first_32 (97 ∷ []) first one_tree).1).1

abbrev filled : TreeManager Tree
filled = (create_tree_with_config trees first_32 (98 ∷ []) default_config one_filled).1

filled-Made : Made trees first_32 filled
filled-Made =
    called (called (called (called (started _) (created _)) (inserted _ first)) (inserted _ second))
      (configured (98 ∷ []) default_config)

compute_global_root-global_root_of_example :
    (m' : TreeManager Tree) × (compute_global_root trees first_32 unlocked filled
      ≡ returned (global_root_of trees first_32 (roots trees first_32 filled.trees), m'))
    × (roots trees first_32 m'.trees ≡ roots trees first_32 filled.trees)
compute_global_root-global_root_of_example =
    compute_global_root-global_root_of trees first_32 filled filled-Made

abbrev after_root : Ended (Hash × TreeManager Tree) → Hash × TreeManager Tree
after_root deadlock = (zero_hash, filled)
after_root (returned r) = r

abbrev settled : Hash × TreeManager Tree
settled = after_root (compute_global_root trees first_32 unlocked filled)

filled-settled : compute_global_root trees first_32 unlocked filled ≡ returned settled
filled-settled =
    let (m', e, _) = compute_global_root-global_root_of trees first_32 filled filled-Made in
    e ∙ ap (λ r. returned (after_root r)) (sym e)

abbrev found : Option Tree → Tree
found none = trees.new default_config
found (some t) = t

abbrev settled_tree : Tree
settled_tree = found (get_tree trees first_32 (97 ∷ []) settled.1)

settled_there : find (97 ∷ []) settled.1.trees ≡ some settled_tree
unfolding create_tree create_tree_with_config insert_to_tree compute_global_root bytes_eq
settled_there = refl

verify_tree_inclusion-compute_global_root_example :
    IsIncluded trees first_32 (97 ∷ []) settled_tree settled.0 settled.1
verify_tree_inclusion-compute_global_root_example =
    verify_tree_inclusion-compute_global_root trees first_32 (97 ∷ []) settled_tree filled settled.1
      settled.0 filled-Made filled-settled settled_there

remove_all-compute_global_root_example :
    compute_global_root trees first_32 unlocked (remove_all trees first_32 settled.1)
    ≡ returned (settled.0, remove_all trees first_32 settled.1)
remove_all-compute_global_root_example =
    remove_all-compute_global_root trees first_32 filled settled.1 settled.0 filled-Made
      filled-settled

abbrev filled_tree : Tree
filled_tree = found (get_tree trees first_32 (97 ∷ []) filled)

filled_there : find (97 ∷ []) filled.trees ≡ some filled_tree
unfolding create_tree create_tree_with_config insert_to_tree bytes_eq
filled_there = refl

get_merkle_proof-is_up_to_date_example :
    ((is_up_to_date trees first_32 filled ≡ true)
      × IsIncluded trees first_32 (97 ∷ []) filled_tree filled.global_root_cache filled)
    ⊎ ((is_up_to_date trees first_32 filled ≡ false)
        × (get_merkle_proof trees first_32 (97 ∷ []) filled ≡ deadlock))
get_merkle_proof-is_up_to_date_example =
    get_merkle_proof-is_up_to_date trees first_32 (97 ∷ []) filled_tree filled filled-Made
      filled_there
