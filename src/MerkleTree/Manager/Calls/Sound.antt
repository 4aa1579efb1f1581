-- ===== src/MerkleTree/Manager/Calls/Sound.antt =====
-- Every call on a `TreeManager` keeps what holds of its caches.
use onchain_exchange_homewor.Prelude.{
  ℕ, Bool, Option, none, some, List, ◌≡◌, inl, inr, Option-cases, [], ◌∷◌, refl, ◌∙◌,
}
use mathlib.Core.Path.{subst}
use onchain_exchange_homewor.MerkleTree.Types.{Hash}
use onchain_exchange_homewor.MerkleTree.Tree.{Config}
use onchain_exchange_homewor.SparseTree.Types.{BytesMap, find}
use onchain_exchange_homewor.MerkleTree.Manager.Interface.{Trees}
use onchain_exchange_homewor.MerkleTree.Manager.{
  returned, TreeManager, set_tree, invalidate_tree_root, create_tree, get_or_create_tree,
  create_tree_with_config, compute_global_root, unlocked,
}
use onchain_exchange_homewor.MerkleTree.Manager.Methods.{
  insert_to_tree, batch_insert_to_tree, clear_tree_named, clone_tree, get_tree_root, get_from_tree,
  all_roots, compute_all_roots, set_default_config,
}
use onchain_exchange_homewor.MerkleTree.Manager.Loops.{roots, AllTrees, AreKept, AreKept_cons}
use onchain_exchange_homewor.MerkleTree.Manager.Current.{compute_global_root-IsGlobalRoot}
use onchain_exchange_homewor.MerkleTree.Manager.Calls.Upkeep.{
  IsSound, new_manager-IsSound, set_tree-IsSound, invalidate_global_root-IsSound,
  invalidate_tree_root-IsSound, remove_tree-IsSound, clear_all-IsSound, find-AllTrees,
}
use onchain_exchange_homewor.MerkleTree.Manager.Calls.{
  Call, created, got_or_created, configured, cloned, removed, inserted, batch_inserted, cleared,
  all_cleared, root_read, all_read, item_read, changed, invalidated, root_invalidated, default_set,
  computed, Made, started, called,
}

module _ {T : Type 0} (ops : Trees T) (blake3 : List ℕ → Hash) where
  open ops use {
    Tree, new, insert, insert_batch, clear, compute_root, get, all_items, IsTree, new_lem,
    insert_lem, insert_batch_lem, clear_lem, get_lem, compute_root_lem,
  }

  -- A new tree under the name.
  new-IsSound :
      (name : List ℕ) (cfg : Config) (m : TreeManager Tree)
      → IsSound ops blake3 m
      → IsSound ops blake3 (set_tree ops blake3 name (new cfg) m)
  new-IsSound name cfg m h = set_tree-IsSound ops blake3 name (new cfg) m (new_lem cfg) h

  create_tree-IsSound :
      (name : List ℕ) (m : TreeManager Tree)
      → IsSound ops blake3 m
      → IsSound ops blake3 (create_tree ops blake3 name m).1
        × IsSound ops blake3 (get_or_create_tree ops blake3 name m).1
  unfolding create_tree get_or_create_tree
  create_tree-IsSound name m h = elim (Option-cases (find name m.trees)) [
    | inl e ↦
        let made = invalidate_global_root-IsSound ops blake3 _ (new-IsSound name m.config m h) in
        rw (e, create_tree, get_or_create_tree) (made, made)
    | inr (t, e) ↦ rw (e, create_tree, get_or_create_tree) (h, h)
  ]

  create_tree_with_config-IsSound :
      (name : List ℕ) (cfg : Config) (m : TreeManager Tree)
      → IsSound ops blake3 m
      → IsSound ops blake3 (create_tree_with_config ops blake3 name cfg m).1
  unfolding create_tree_with_config
  create_tree_with_config-IsSound name cfg m h = elim (Option-cases (find name m.trees)) [
    | inl e ↦ rw (e, create_tree_with_config) (new-IsSound name cfg m h)
    | inr (t, e) ↦ rw (e, create_tree_with_config) h
  ]

  -- A call that ends in a panic, or in a sound manager.
  abbrev IsSettled : Option (Bool × TreeManager Tree) → Type 0
  IsSettled none = Unit
  IsSettled (some r) = IsSound ops blake3 r.1

  clone_tree-IsSettled :
      (source_name new_name : List ℕ) (m : TreeManager Tree)
      → IsSound ops blake3 m
      → IsSettled (clone_tree ops blake3 source_name new_name m)
  unfolding clone_tree
  clone_tree-IsSettled source_name new_name m h = elim (Option-cases (find source_name m.trees)) [
    | inl a ↦ rw (a, clone_tree) h
    | inr (t, a) ↦ elim (Option-cases (find new_name m.trees)) [
      | inr (_, b) ↦ rw (a, clone_tree) (rw b h)
      | inl b ↦ elim (Option-cases (insert_batch (all_items t) (new m.config))) [
        | inl c ↦ rw (a, clone_tree) (rw b (rw c tt))
        | inr (t', c) ↦
            let is_tree = insert_batch_lem (all_items t) (new m.config) t' (new_lem m.config) c in
            rw (a, clone_tree) (rw b (rw c (set_tree-IsSound ops blake3 new_name t' m is_tree h)))
      ]
    ]
  ]

  -- A call on the tree of a name, if there is one.
  module _ (name : List ℕ) (m : TreeManager Tree) (h : IsSound ops blake3 m) where
    is_tree : (t : Tree) → find name m.trees ≡ some t → IsTree t
    is_tree t e = find-AllTrees ops blake3 name t m.trees h.current.trees.0 e

    kept : (t : Tree) → IsTree t → IsSound ops blake3 (set_tree ops blake3 name t m)
    kept t made = set_tree-IsSound ops blake3 name t m made h

    forgotten :
        (t : Tree)
        → IsTree t
        → IsSound ops blake3 (invalidate_tree_root ops blake3 name (set_tree ops blake3 name t m))
    forgotten t made = invalidate_tree_root-IsSound ops blake3 name _ (kept t made)

    insert_to_tree-IsSound :
        (item : T) → IsSound ops blake3 (insert_to_tree ops blake3 name item m).1
    unfolding insert_to_tree
    insert_to_tree-IsSound item = elim (Option-cases (find name m.trees)) [
      | inl e ↦ rw (e, insert_to_tree) h
      | inr (t, e) ↦
          rw (e, insert_to_tree) (forgotten (insert item t) (insert_lem item t (is_tree t e)))
    ]

    batch_insert_to_tree-IsSettled :
        (items : List T) → IsSettled (batch_insert_to_tree ops blake3 name items m)
    unfolding batch_insert_to_tree
    batch_insert_to_tree-IsSettled items = elim (Option-cases (find name m.trees)) [
      | inl e ↦ rw (e, batch_insert_to_tree) h
      | inr (t, e) ↦ elim (Option-cases (insert_batch items t)) [
        | inl c ↦ rw (e, batch_insert_to_tree) (rw c tt)
        | inr (t', c) ↦
            let made = forgotten t' (insert_batch_lem items t t' (is_tree t e) c) in
            rw (e, batch_insert_to_tree) (rw c made)
      ]
    ]

    single-IsSound :
        (id : ℕ)
        → IsSound ops blake3 (clear_tree_named ops blake3 name m).1
          × IsSound ops blake3 (get_tree_root ops blake3 name m).1
          × IsSound ops blake3 (get_from_tree ops blake3 name id m).1
    unfolding clear_tree_named get_tree_root get_from_tree
    single-IsSound id = elim (Option-cases (find name m.trees)) [
      | inl e ↦ rw (e, clear_tree_named, get_tree_root, get_from_tree) (h, h, h)
      | inr (t, e) ↦
          let made = is_tree t e in
          let root_kept = kept _ (compute_root_lem t made).1 in
          rw (e, clear_tree_named, get_tree_root, get_from_tree)
            (kept _ (clear_lem t made), root_kept, kept _ (get_lem id t made))
    ]

  computed-IsSound :
      (m m' : TreeManager Tree) (h : Hash)
      → IsSound ops blake3 m
      → compute_global_root ops blake3 unlocked m ≡ returned (h, m')
      → IsSound ops blake3 m'
  computed-IsSound m m' h sound e =
      let (r, returns, root) =
        compute_global_root-IsGlobalRoot ops blake3 sound.by_name m sound.current in
      let same : r.1 ≡ m' = cc in
      subst (IsSound ops blake3) same
        (record { by_name = sound.by_name; current = root.current; apart = sound.apart })

  all_roots-AreKept :
      (ts : BytesMap Tree)
      → AllTrees ops blake3 ts
      → AreKept ops blake3 (roots ops blake3 ts) (all_roots ops blake3 ts).1
  unfolding all_roots
  all_roots-AreKept [] h = (tt, refl)
  all_roots-AreKept ((name, t) ∷ ts) h =
      let (same, made, kept) = compute_root_lem t h.0 in
      AreKept_cons ops blake3 name (ops.root_of t) _ _ _ made kept (all_roots-AreKept ts h.1)

  compute_all_roots-IsSound :
      (m : TreeManager Tree)
      → IsSound ops blake3 m
      → IsSound ops blake3 (compute_all_roots ops blake3 m).1
  unfolding compute_all_roots
  compute_all_roots-IsSound m h =
      let (trees, same) = all_roots-AreKept m.trees h.current.trees.0 in
      record {
        by_name = h.by_name;
        current = record {
          trees = (trees, same ∙ h.current.trees.1);
          narrow = h.current.narrow;
          clean = h.current.clean;
        };
        apart = h.apart;
      }

  Call-IsSound :
      {m m' : TreeManager Tree}
      → Call ops blake3 m m'
      → IsSound ops blake3 m
      → IsSound ops blake3 m'
  unfolding set_default_config
  Call-IsSound {m} (created name) h = (create_tree-IsSound name m h).0
  Call-IsSound {m} (got_or_created name) h = (create_tree-IsSound name m h).1
  Call-IsSound {m} (configured name cfg) h = create_tree_with_config-IsSound name cfg m h
  Call-IsSound {m} (cloned source new_name done m' e) h =
      subst IsSettled e (clone_tree-IsSettled source new_name m h)
  Call-IsSound {m} (removed name) h = remove_tree-IsSound ops blake3 name m h
  Call-IsSound {m} (inserted name item) h = insert_to_tree-IsSound name m h item
  Call-IsSound {m} (batch_inserted name items done m' e) h =
      subst IsSettled e (batch_insert_to_tree-IsSettled name m h items)
  Call-IsSound {m} (cleared name) h = (single-IsSound name m h 0).0
  Call-IsSound {m} all_cleared h = clear_all-IsSound ops blake3 m h
  Call-IsSound {m} (root_read name) h = (single-IsSound name m h 0).1
  Call-IsSound {m} all_read h = compute_all_roots-IsSound m h
  Call-IsSound {m} (item_read name id) h = (single-IsSound name m h id).2
  Call-IsSound {m} (changed name t t' e made) h = set_tree-IsSound ops blake3 name t' m made h
  Call-IsSound {m} invalidated h = invalidate_global_root-IsSound ops blake3 m h
  Call-IsSound {m} (root_invalidated name) h = invalidate_tree_root-IsSound ops blake3 name m h
  Call-IsSound {m} (default_set cfg) h = record {
    by_name = h.by_name;
    current = record {
      trees = h.current.trees;
      narrow = h.current.narrow;
      clean = h.current.clean;
    };
    apart = h.apart;
  }
  Call-IsSound {m} (computed r m' e) h = computed-IsSound m m' r h e

  pub Made-IsSound : {m : TreeManager Tree} → Made ops blake3 m → IsSound ops blake3 m
  Made-IsSound (started cfg) = new_manager-IsSound ops blake3 cfg
  Made-IsSound (called made call) = Call-IsSound call (Made-IsSound made)
