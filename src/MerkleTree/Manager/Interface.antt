-- ===== src/MerkleTree/Manager/Interface.antt =====
-- What the manager asks of its trees: the methods of mt-manager/merkletree/tree.go that it calls, and
-- that `ComputeRoot` gives the root of the leaves and keeps it.
use onchain_exchange_homewor.Prelude.{ℕ, Option, some, List, ◌≡◌}
use onchain_exchange_homewor.MerkleTree.Types.{Hash}
use onchain_exchange_homewor.MerkleTree.Tree.{Config}

pub record Trees (T : Type 0) : Type 1 where
  pub Tree : Type 0
  pub new : Config → Tree
  pub insert : T → Tree → Tree
  -- `none` is a panic.
  pub insert_batch : List T → Tree → Option Tree
  pub clear : Tree → Tree
  pub compute_root : Tree → Hash × Tree
  pub get : ℕ → Tree → Option T × Tree
  pub size : Tree → ℕ
  pub all_items : Tree → List T
  -- The trees that the methods make, and the root of their leaves.
  pub IsTree : Tree → Type 0
  pub root_of : Tree → Hash
  pub new_lem : (cfg : Config) → IsTree (new cfg)
  pub insert_lem : (item : T) (t : Tree) → IsTree t → IsTree (insert item t)
  pub insert_batch_lem :
      (items : List T) (t new : Tree) → IsTree t → insert_batch items t ≡ some new → IsTree new
  pub clear_lem : (t : Tree) → IsTree t → IsTree (clear t)
  pub get_lem : (id : ℕ) (t : Tree) → IsTree t → IsTree (get id t).1
  pub compute_root_lem :
      (t : Tree)
      → IsTree t
      → ((compute_root t).0 ≡ root_of t)
        × IsTree (compute_root t).1
        × (root_of (compute_root t).1 ≡ root_of t)
