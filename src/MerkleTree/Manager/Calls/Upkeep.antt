-- ===== src/MerkleTree/Manager/Calls/Upkeep.antt =====
-- The methods of `TreeManager` keep what holds of its caches.
use onchain_exchange_homewor.Prelude.{
  ℕ, false, some, List, [], ◌∷◌, if◌then◌else◌, All, ◌≡◌, refl, sym, ap, ◌∙◌, inl, inr, Bool-cases,
  Option-cases,
}
use mathlib.Core.Path.{subst}
use mathlib.Core.Option.{some-injective}
use onchain_exchange_homewor.MerkleTree.Types.{Hash, bytes_eq}
use onchain_exchange_homewor.MerkleTree.Tree.{Config}
use onchain_exchange_homewor.SparseTree.Types.{BytesMap, find, put, delete_key}
use onchain_exchange_homewor.SparseTree.Nodes.Stored.{find-delete_key}
use onchain_exchange_homewor.MerkleTree.Manager.Interface.{Trees}
use onchain_exchange_homewor.MerkleTree.Manager.{
  names_of, TreeManager, new_manager, set_tree, invalidate_global_root, invalidate_tree_root,
  remove_tree,
}
use onchain_exchange_homewor.MerkleTree.Manager.Methods.{clear_all, clear_trees}
use onchain_exchange_homewor.MerkleTree.Manager.Loops.{
  names_of-put, All-put, find-none, roots, AllTrees, AreKept,
}
use onchain_exchange_homewor.MerkleTree.Manager.Current.{IsClean, IsCurrent}
use onchain_exchange_homewor.MerkleTree.Manager.Calls.Names.{
  AreApart, put-none, delete_key-none, none-find, put-AreApart, delete_key-AreApart,
}

module _ {T : Type 0} (ops : Trees T) (blake3 : List ℕ → Hash) where
  open ops use {Tree, new, clear, IsTree, root_of, clear_lem}

  -- The caches are true of the trees, whose names are apart.
  pub record IsSound (m : TreeManager Tree) : Type 0 where
    pub by_name : BytesMap Hash
    pub current : IsCurrent ops blake3 by_name m
    pub apart : AreApart (names_of by_name)

  pub new_manager-IsSound : (cfg : Config) → IsSound (new_manager ops blake3 cfg)
  new_manager-IsSound cfg = record {
    by_name = [];
    current = record { trees = (tt, refl); narrow = λ n e. e; clean = λ e. cc };
    apart = tt;
  }

  put-AllTrees :
      (name : List ℕ) (t : Tree) (ts : BytesMap Tree)
      → IsTree t
      → AllTrees ops blake3 ts
      → AreKept ops blake3 (put name (root_of t) (roots ops blake3 ts)) (put name t ts)
  put-AllTrees name t [] is_tree h = ((is_tree, tt), refl)
  put-AllTrees name t ((i, u) ∷ ts) is_tree h = elim (Bool-cases (bytes_eq i name)) [
    | inl a ↦ rw (a, put) ((is_tree, h.1), refl)
    | inr a ↦
        let (rest, same) = put-AllTrees name t ts is_tree h.1 in
        rw (a, put) ((h.0, rest), ap (λ s. (i, root_of u) ∷ s) same)
  ]

  delete_key-AllTrees :
      (name : List ℕ) (ts : BytesMap Tree)
      → AllTrees ops blake3 ts
      → AreKept ops blake3 (delete_key name (roots ops blake3 ts)) (delete_key name ts)
  delete_key-AllTrees name [] h = (tt, refl)
  delete_key-AllTrees name ((i, u) ∷ ts) h =
      let (rest, same) = delete_key-AllTrees name ts h.1 in
      elim (Bool-cases (bytes_eq i name)) [
        | inl a ↦ rw (a, delete_key) (rest, same)
        | inr a ↦ rw (a, delete_key) ((h.0, rest), ap (λ s. (i, root_of u) ∷ s) same)
      ]

  pub find-AllTrees :
      (name : List ℕ) (t : Tree) (ts : BytesMap Tree)
      → AllTrees ops blake3 ts
      → find name ts ≡ some t
      → IsTree t
  find-AllTrees name t [] h e = cc
  find-AllTrees name t ((i, u) ∷ ts) h e = elim (Bool-cases (bytes_eq i name)) [
    | inl a ↦
        subst IsTree (some-injective u t (sym (ap (λ b. if b then some u else find name ts) a) ∙ e))
          h.0
    | inr a ↦ find-AllTrees name t ts h.1 (sym (ap (λ b. if b then some u else find name ts) a) ∙ e)
  ]

  pub set_tree-IsSound :
      (name : List ℕ) (t : Tree) (m : TreeManager Tree)
      → IsTree t
      → IsSound m
      → IsSound (set_tree ops blake3 name t m)
  set_tree-IsSound name t m is_tree h =
      let s = h.by_name in
      let (trees, same) = put-AllTrees name t m.trees is_tree h.current.trees.0 in
      record {
        by_name = put name (root_of t) s;
        current = record {
          trees = (trees, same ∙ ap (put name (root_of t)) h.current.trees.1);
          narrow = λ n e. h.current.narrow n (put-none name n (root_of t) s e);
          clean = λ clean found. elim (Option-cases (find name s)) [
            | inl e ↦
                let none_there = h.current.narrow name e in
                let there = (All-put _ name (root_of t) s found).1 in cc
            | inr (w, e) ↦
                subst (IsClean ops blake3 m m.tree_root_cache)
                  (sym (names_of-put name (root_of t) w s e)) h.current.clean clean found
          ];
        };
        apart = put-AreApart name (root_of t) s h.apart;
      }

  pub invalidate_global_root-IsSound :
      (m : TreeManager Tree) → IsSound m → IsSound (invalidate_global_root ops blake3 m)
  invalidate_global_root-IsSound m h = record {
    by_name = h.by_name;
    current = record { trees = h.current.trees; narrow = h.current.narrow; clean = λ e. cc };
    apart = h.apart;
  }

  pub invalidate_tree_root-IsSound :
      (name : List ℕ) (m : TreeManager Tree)
      → IsSound m
      → IsSound (invalidate_tree_root ops blake3 name m)
  invalidate_tree_root-IsSound name m h = record {
    by_name = h.by_name;
    current = record {
      trees = h.current.trees;
      narrow = λ n e.
          find-delete_key name n m.tree_root_cache ∙ elim (Bool-cases (bytes_eq name n)) [
            | inl a ↦ rw a refl
            | inr a ↦ rw a (h.current.narrow n e)
          ];
      clean = λ e. cc;
    };
    apart = h.apart;
  }

  pub remove_tree-IsSound :
      (name : List ℕ) (m : TreeManager Tree) → IsSound m → IsSound (remove_tree ops blake3 name m).1
  unfolding remove_tree
  remove_tree-IsSound name m h = elim (Option-cases (find name m.trees)) [
    | inl e ↦ rw (e, remove_tree) h
    | inr (t, e) ↦
        let (trees, same) = delete_key-AllTrees name m.trees h.current.trees.0 in
        rw (e, remove_tree)
          (record {
            by_name = delete_key name h.by_name;
            current = record {
              trees = (trees, same ∙ ap (delete_key name) h.current.trees.1);
              narrow =
                  λ n f. delete_key-none name n h.by_name m.tree_root_cache (h.current.narrow n) f;
              clean = λ e. cc;
            };
            apart = delete_key-AreApart name h.by_name h.apart;
          })
  ]

  clear_trees-AllTrees :
      (ts : BytesMap Tree)
      → AllTrees ops blake3 ts
      → AllTrees ops blake3 (clear_trees ops blake3 ts)
        × (names_of (roots ops blake3 (clear_trees ops blake3 ts)) ≡ names_of (roots ops blake3 ts))
  clear_trees-AllTrees [] h = (tt, refl)
  clear_trees-AllTrees ((i, t) ∷ ts) h =
      let (rest, same) = clear_trees-AllTrees ts h.1 in
      ((clear_lem t h.0, rest), ap (λ ns. i ∷ ns) same)

  pub clear_all-IsSound : (m : TreeManager Tree) → IsSound m → IsSound (clear_all ops blake3 m)
  unfolding clear_all
  clear_all-IsSound m h =
      let s = roots ops blake3 (clear_trees ops blake3 m.trees) in
      let (trees, same') = clear_trees-AllTrees m.trees h.current.trees.0 in
      let same = same' ∙ ap names_of h.current.trees.1 in
      record {
        by_name = s;
        current = record {
          trees = (trees, refl);
          narrow = λ n e. h.current.narrow n (
              none-find n h.by_name
                (subst (All (λ k. bytes_eq k n ≡ false)) same (find-none n s e)));
          clean = subst (IsClean ops blake3 m m.tree_root_cache) (sym same) h.current.clean;
        };
        apart = subst AreApart (sym same) h.apart;
      }
