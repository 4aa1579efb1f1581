-- ===== src/MerkleTree/Manager/Methods.antt =====
-- The methods of `TreeManager` on single trees, and the proof that a tree is under the global root.
use onchain_exchange_homewor.Prelude.{
  ℕ, Bool, true, false, Option, none, some, List, [], ◌∷◌, get_or, sort_by,
}
use onchain_exchange_homewor.MerkleTree.Types.{Hash, zero_hash}
use onchain_exchange_homewor.MerkleTree.Tree.{Config}
use onchain_exchange_homewor.MerkleTree.Proof.{MerkleProof, compute_proof_path, verify}
use onchain_exchange_homewor.SparseTree.Types.{BytesMap, find, put, delete_key}
use onchain_exchange_homewor.MerkleTree.Manager.Interface.{Trees}
use onchain_exchange_homewor.MerkleTree.Manager.{
  name_before, names_of, Ended, returned, deadlock, index_of, TreeManager, set_tree,
  invalidate_tree_root, get_tree, compute_named, compute_global_root, unlocked, r_lock,
}

module _ {T : Type 0} (ops : Trees T) (blake3 : List ℕ → Hash) where
  open ops use {Tree, new, insert, insert_batch, clear, compute_root, get, size, all_items}

  -- `InsertToTree`; `false` is an error.
  unfoldable pub insert_to_tree : List ℕ → T → TreeManager Tree → Bool × TreeManager Tree
  insert_to_tree name item m = elim (get_tree ops blake3 name m) [
    | none ↦ (false, m)
    | some t ↦
        (true, invalidate_tree_root ops blake3 name (set_tree ops blake3 name (insert item t) m))
  ]

  -- `BatchInsertToTree`; no result is a panic.
  unfoldable pub batch_insert_to_tree :
      List ℕ → List T → TreeManager Tree → Option (Bool × TreeManager Tree)
  batch_insert_to_tree name items m = elim (get_tree ops blake3 name m) [
    | none ↦ some (false, m)
    | some t ↦ elim (insert_batch items t) [
      | none ↦ none
      | some t' ↦ some (true, invalidate_tree_root ops blake3 name (set_tree ops blake3 name t' m))
    ]
  ]

  abbrev pub clear_trees : BytesMap Tree → BytesMap Tree
  clear_trees [] = []
  clear_trees ((name, t) ∷ ts) = (name, clear t) ∷ clear_trees ts

  -- `ClearAll`
  unfoldable pub clear_all : TreeManager Tree → TreeManager Tree
  clear_all m = record m { trees = clear_trees m.trees }

  -- `ClearTree`
  unfoldable pub clear_tree_named : List ℕ → TreeManager Tree → Bool × TreeManager Tree
  clear_tree_named name m = elim (get_tree ops blake3 name m) [
    | none ↦ (false, m)
    | some t ↦ (true, set_tree ops blake3 name (clear t) m)
  ]

  -- `RemoveAll`
  unfoldable pub remove_all : TreeManager Tree → TreeManager Tree
  remove_all m = record m { trees = [] }

  -- `RenameTree`
  unfoldable pub rename_tree : List ℕ → List ℕ → TreeManager Tree → Bool × TreeManager Tree
  rename_tree old_name new_name m = elim (find old_name m.trees) [
    | none ↦ (false, m)
    | some t ↦ elim (find new_name m.trees) [
      | some _ ↦ (false, m)
      | none ↦ (true, record m { trees = delete_key old_name (put new_name t m.trees) })
    ]
  ]

  -- `CloneTree`; no result is a panic of `InsertBatch`.
  unfoldable pub clone_tree : List ℕ → List ℕ → TreeManager Tree → Option (Bool × TreeManager Tree)
  clone_tree source_name new_name m = elim (find source_name m.trees) [
    | none ↦ some (false, m)
    | some source ↦ elim (find new_name m.trees) [
      | some _ ↦ some (false, m)
      | none ↦ elim (insert_batch (all_items source) (new m.config)) [
        | none ↦ none
        | some t ↦ some (true, set_tree ops blake3 new_name t m)
      ]
    ]
  ]

  -- `TreeExists`
  unfoldable pub tree_exists : List ℕ → TreeManager Tree → Bool
  tree_exists name m = elim (find name m.trees) [ none ↦ false | some _ ↦ true ]

  -- `GetTreeSize`
  unfoldable pub get_tree_size : List ℕ → TreeManager Tree → Option ℕ
  get_tree_size name m = elim (get_tree ops blake3 name m) [ none ↦ none | some t ↦ some (size t) ]

  -- `GetTreeRoot`
  unfoldable pub get_tree_root : List ℕ → TreeManager Tree → Option Hash × TreeManager Tree
  get_tree_root name m = elim (get_tree ops blake3 name m) [
    | none ↦ (none, m)
    | some t ↦ (some (compute_root t).0, set_tree ops blake3 name (compute_root t).1 m)
  ]

  -- `GetFromTree`
  unfoldable pub get_from_tree : List ℕ → ℕ → TreeManager Tree → Option T × TreeManager Tree
  get_from_tree name id m = elim (get_tree ops blake3 name m) [
    | none ↦ (none, m)
    | some t ↦ ((get id t).0, set_tree ops blake3 name (get id t).1 m)
  ]

  -- Each tree has a name of its own, so the order of the goroutines does not matter.
  unfoldable pub all_roots : BytesMap Tree → BytesMap Hash × BytesMap Tree
  all_roots [] = ([], [])
  all_roots ((name, t) ∷ ts) =
      let (root, t') = compute_root t in
      let rest = all_roots ts in (put name root rest.0, (name, t') ∷ rest.1)

  -- `ComputeAllRoots`
  unfoldable pub compute_all_roots : TreeManager Tree → BytesMap Hash × TreeManager Tree
  unfolding all_roots
  compute_all_roots m =
      let (results, trees) = all_roots m.trees in (results, record m { trees = trees })

  -- `SetDefaultConfig`
  unfoldable pub set_default_config : Config → TreeManager Tree → TreeManager Tree
  set_default_config cfg m = record m { config = cfg }

  -- The roots of the trees by name.
  unfoldable pub roots_of : List (List ℕ) → BytesMap Tree → List Hash × BytesMap Tree
  unfolding compute_named
  roots_of [] ts = ([], ts)
  roots_of (name ∷ names) ts =
      let (h, ts') = compute_named ops blake3 name ts in
      let rest = roots_of names ts' in (h ∷ rest.0, rest.1)

  -- The proof, once the global root is there.
  abbrev pub prove_root :
      List Hash
      → ℕ
      → Ended (Hash × TreeManager Tree)
      → Ended (Option MerkleProof × TreeManager Tree)
  prove_root roots index deadlock = deadlock
  prove_root roots index (returned (root, m)) = elim (compute_proof_path blake3 roots index) [
    | none ↦ returned (none, m)
    | some path ↦ returned (
      some (record {
        tree_root = get_or roots index zero_hash;
        proof_path = path.0;
        is_left = path.1;
        global_root = root;
      }),
      m,
    )
  ]

  -- `GetMerkleProof`; no proof is an error.
  unfoldable pub get_merkle_proof :
      List ℕ → TreeManager Tree → Ended (Option MerkleProof × TreeManager Tree)
  unfolding roots_of compute_global_root sort_by name_before
  get_merkle_proof name m =
      let names = sort_by name_before (names_of m.trees) in
      let (roots, trees) = roots_of names m.trees in
      let computed = record m { trees = trees } in
      elim (r_lock unlocked) [
        | none ↦ deadlock
        | some mu ↦ elim (index_of name names) [
          | none ↦ returned (none, m)
          | some index ↦ prove_root roots index (compute_global_root ops blake3 mu computed)
        ]
      ]

  abbrev pub verified :
      Ended (Option MerkleProof × TreeManager Tree) → Ended (Option Bool × TreeManager Tree)
  verified deadlock = deadlock
  verified (returned (none, m)) = returned (none, m)
  verified (returned (some proof, m)) = returned (verify blake3 proof, m)

  -- `VerifyTreeInclusion`; no answer is an error or a panic.
  unfoldable pub verify_tree_inclusion :
      List ℕ → TreeManager Tree → Ended (Option Bool × TreeManager Tree)
  unfolding get_merkle_proof
  verify_tree_inclusion name m = verified (get_merkle_proof name m)
