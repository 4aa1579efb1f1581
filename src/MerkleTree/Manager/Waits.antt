-- ===== src/MerkleTree/Manager/Waits.antt =====
-- When `GetMerkleProof` of mt-manager/merkletree/manager.go returns. It holds the lock for reading, so
-- it does if and only if `ComputeGlobalRoot` does not ask for the write lock.
use onchain_exchange_homewor.Prelude.{
  ℕ, Bool, true, false, not, ◌&&◌, some, List, [], ◌∷◌, sort_by, ◌≡◌, ◌⊎◌, refl, sym, ap, ◌∙◌, inl,
  inr, Bool-cases, Option-cases,
}
use mathlib.Core.Path.{subst}
use onchain_exchange_homewor.MerkleTree.Types.{Hash, bytes_eq}
use onchain_exchange_homewor.SparseTree.Types.{BytesMap, find}
use onchain_exchange_homewor.MerkleTree.Manager.Interface.{Trees}
use onchain_exchange_homewor.MerkleTree.Manager.{
  name_before, names_of, deadlock, TreeManager, is_root, first_check, compute_global_root, reading,
}
use onchain_exchange_homewor.MerkleTree.Manager.Methods.{roots_of, prove_root, get_merkle_proof}
use onchain_exchange_homewor.MerkleTree.Manager.Loops.{
  roots, AllTrees, AreCached, AreKept, first_check-IsChecked,
}
use onchain_exchange_homewor.MerkleTree.Manager.Current.{IsCurrent, at_rest}
use onchain_exchange_homewor.MerkleTree.Manager.Calls.{Made}
use onchain_exchange_homewor.MerkleTree.Manager.Calls.Sound.{Made-IsSound}
use onchain_exchange_homewor.MerkleTree.Manager.Inclusion.{roots_of_lem, found-StandsAt}
use onchain_exchange_homewor.MerkleTree.Manager.Laws.{IsIncluded, IsGlobalRoot-IsIncluded}

-- Each root is the one that is cached under its name.
abbrev pub all_cached : BytesMap Hash → BytesMap Hash → Bool
all_cached cache [] = true
all_cached cache ((name, root) ∷ s) = is_root root (find name cache) && all_cached cache s

both_true : (dirty cached : Bool) → not dirty && cached ≡ true → (dirty ≡ false) × (cached ≡ true)
both_true true cached e = cc
both_true false cached e = (refl, e)

module _ {T : Type 0} (ops : Trees T) (blake3 : List ℕ → Hash) where
  open ops use {Tree, compute_root, root_of, compute_root_lem}

  -- The global root is clean, and the root of each tree is the one that is cached.
  abbrev pub is_up_to_date : TreeManager Tree → Bool
  is_up_to_date m =
      not m.global_root_dirty && all_cached m.tree_root_cache (roots ops blake3 m.trees)

  first_check-all_cached :
      (cache : BytesMap Hash) (ts : BytesMap Tree)
      → AllTrees ops blake3 ts
      → (first_check ops blake3 cache ts).0 ≡ not (all_cached cache (roots ops blake3 ts))
  unfolding first_check
  first_check-all_cached cache [] h = refl
  first_check-all_cached cache ((name, t) ∷ ts) h =
      let rest = first_check-all_cached cache ts h.1 in
      let actual = (compute_root_lem t h.0).0 in
      elim (Option-cases (find name cache)) [
        | inl e ↦ rw (e, first_check, all_cached) refl
        | inr (c, e) ↦ elim (Bool-cases (bytes_eq (root_of t) c)) [
          | inl a ↦ rw (e, first_check, all_cached) (rw (actual, a) rest)
          | inr a ↦ rw (e, first_check, all_cached) (rw (actual, a) refl)
        ]
      ]

  -- A call of `ComputeGlobalRoot` while the caller reads.
  reading-deadlock :
      (s : BytesMap Hash) (m : TreeManager Tree) (ts : BytesMap Tree)
      → AreKept ops blake3 s ts
      → not m.global_root_dirty && all_cached m.tree_root_cache s ≡ false
      → compute_global_root ops blake3 reading (record m { trees = ts }) ≡ deadlock
  unfolding compute_global_root
  reading-deadlock s m ts (trees, same) stale = elim (Bool-cases m.global_root_dirty) [
    | inl e ↦ rw e refl
    | inr e ↦
        let changed : (first_check ops blake3 m.tree_root_cache ts).0 ≡ true =
          first_check-all_cached m.tree_root_cache ts trees
          ∙ ap (λ s. not (all_cached m.tree_root_cache s)) same
          ∙ ap not (sym (rw e refl) ∙ stale) in
        rw e (rw changed refl)
  ]

  up_to_date-AreCached :
      (s : BytesMap Hash) (m : TreeManager Tree)
      → AreKept ops blake3 s m.trees
      → is_up_to_date m ≡ true
      → (m.global_root_dirty ≡ false) × AreCached m.tree_root_cache s (names_of s)
  up_to_date-AreCached s m (trees, same) e =
      let current = all_cached m.tree_root_cache (roots ops blake3 m.trees) in
      let (clean, cached) : (m.global_root_dirty ≡ false) × (current ≡ true) =
        both_true m.global_root_dirty current e in
      let checked = first_check-IsChecked ops blake3 m.tree_root_cache m.trees trees in
      let unchanged = first_check-all_cached m.tree_root_cache m.trees trees ∙ ap not cached in
      (clean, subst (λ s. AreCached m.tree_root_cache s (names_of s)) same (checked.1 unchanged))

  outdated-deadlock :
      (s : BytesMap Hash) (m : TreeManager Tree) (name : List ℕ) (t : Tree)
      → IsCurrent ops blake3 s m
      → find name m.trees ≡ some t
      → is_up_to_date m ≡ false
      → get_merkle_proof ops blake3 name m ≡ deadlock
  unfolding get_merkle_proof
  outdated-deadlock s m name t current there e =
      let names = sort_by name_before (names_of m.trees) in
      let read = roots_of ops blake3 names m.trees in
      let same = current.trees.1 in
      let ((i, found, below, at_i), of_tree) =
        found-StandsAt ops blake3 name t s m.trees same there in
      let (hashes, kept) = roots_of_lem ops blake3 names s m.trees current.trees in
      let outdated =
        subst (λ s. not m.global_root_dirty && all_cached m.tree_root_cache s ≡ false) same e in
      let answer = compute_global_root ops blake3 reading (record m { trees = read.1 }) in
      let opened : get_merkle_proof ops blake3 name m ≡ prove_root ops blake3 read.0 i answer =
        rw (found, get_merkle_proof) refl in
      opened ∙ ap (prove_root ops blake3 read.0 i) (reading-deadlock s m read.1 kept outdated)

  -- After any calls on a new manager but `RenameTree` and `RemoveAll`, and whatever was done to the
  -- trees by their pointers, `GetMerkleProof` of a tree that is there returns a proof with the root
  -- of the tree and the cached global root, which `VerifyTreeInclusion` accepts, if the global root is
  -- clean and the root of each tree is the one that is cached. Else it never returns: it holds the lock
  -- for reading while `ComputeGlobalRoot` asks for it for writing.
  pub get_merkle_proof-is_up_to_date :
      (name : List ℕ) (t : Tree) (m : TreeManager Tree)
      → Made ops blake3 m
      → find name m.trees ≡ some t
      → ((is_up_to_date m ≡ true) × IsIncluded ops blake3 name t m.global_root_cache m)
        ⊎ ((is_up_to_date m ≡ false) × (get_merkle_proof ops blake3 name m ≡ deadlock))
  get_merkle_proof-is_up_to_date name t m made there =
      let sound = Made-IsSound ops blake3 made in
      let s = sound.by_name in
      elim (Bool-cases (is_up_to_date m)) [
        | inl e ↦
            let (clean, cached) = up_to_date-AreCached s m sound.current.trees e in
            let root = at_rest ops blake3 s m sound.current clean cached in
            inl (
              e,
              IsGlobalRoot-IsIncluded ops blake3 s m.global_root_cache m name t root sound.apart
                  there,
            )
        | inr e ↦ inr (e, outdated-deadlock s m name t sound.current there e)
      ]
