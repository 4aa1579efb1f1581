-- ===== src/MerkleTree/Tree/Steps.antt =====
-- The calls on a tree, one after the other.
use onchain_exchange_homewor.Prelude.{ℕ, List, some, ◌≡◌, ◌⊎◌, arith}
use mathlib.Core.List.{Perm}
use onchain_exchange_homewor.MerkleTree.Types.{Hashable}
use onchain_exchange_homewor.MerkleTree.Cache.{Cache}
use onchain_exchange_homewor.MerkleTree.Tree.{
  Config, Tree, new, insert_item, insert_batch, insert_stored, delete_item, delete_batch,
  clear_tree, compute_root, get,
}

module _ {T : Type 0} (hashable : Hashable T) (cache : Cache T) where
  open cache use {State}

  -- What a batch does if it is no panic.
  pub insert_batch-cases :
      (items stored placed : List T) (t t' : Tree T State)
      → insert_batch hashable cache items stored placed t ≡ some t'
      → (t ≡ t')
        ⊎ ((insert_stored hashable cache items items t ≡ t')
            ⊎ (insert_stored hashable cache stored placed t ≡ t'))
  unfolding insert_batch
  insert_batch-cases items stored placed t t' e = ground arith

  -- A call, and the tree that it leaves. The goroutines of a batch take each item once.
  pub data Step : Tree T State → Tree T State → Type 0 where
    inserted : (item : T) (t : Tree T State) → Step t (insert_item hashable cache item t)
    batch_inserted :
        (items stored placed : List T) (t t' : Tree T State)
        → Perm stored items
        → Perm placed items
        → insert_batch hashable cache items stored placed t ≡ some t'
        → Step t t'
    deleted : (id : ℕ) (t : Tree T State) → Step t (delete_item hashable cache id t).1
    batch_deleted :
        (ids : List ℕ) (order : List T → List T) (t : Tree T State)
        → ((items : List T) → Perm (order items) items)
        → Step t (delete_batch hashable cache ids order t).1
    cleared : (t : Tree T State) → Step t (clear_tree hashable cache t)
    computed : (t : Tree T State) → Step t (compute_root hashable cache t).1
    read : (id : ℕ) (t : Tree T State) → Step t (get hashable cache id t).1

  -- The trees that calls lead to from a new one.
  pub data Reach (cfg : Config) : Tree T State → Type 0 where
    started : Reach cfg (new hashable cache cfg)
    called : {t t' : Tree T State} → Reach cfg t → Step t t' → Reach cfg t'
