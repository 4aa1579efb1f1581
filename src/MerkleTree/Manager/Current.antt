-- ===== src/MerkleTree/Manager/Current.antt =====
-- What holds of the caches of a `TreeManager`, and that `ComputeGlobalRoot` returns the root over the
-- roots of the trees and keeps it.
use onchain_exchange_homewor.Prelude.{
  ℕ, false, some, List, [], ◌∷◌, map, sort_by, All, ◌≡◌, refl, sym, ap, ◌∙◌, inl, inr, Bool-cases,
  All-sort_by, sort_by-All,
}
use mathlib.Core.Path.{subst}
use onchain_exchange_homewor.MerkleTree.Types.{Hash, bytes_eq}
use onchain_exchange_homewor.SparseTree.Types.{BytesMap, find}
use onchain_exchange_homewor.MerkleTree.Manager.Interface.{Trees}
use onchain_exchange_homewor.MerkleTree.Manager.{
  name_before, names_of, returned, TreeManager, first_check, second_check, merkle_root_of, collect,
  recompute, under_lock, compute_global_root, unlocked,
}
use onchain_exchange_homewor.MerkleTree.Manager.Loops.{
  find-none, root_in, AreCached, map-root_in, roots, AreKept, IsChecked, IsRechecked,
  first_check-IsChecked, IsNotWider, second_check-IsRechecked,
}
use onchain_exchange_homewor.MerkleTree.Manager.Collect.{collect-IsCollected}

module _ {T : Type 0} (ops : Trees T) (blake3 : List ℕ → Hash) where
  open ops use {Tree}

  -- The root over the roots under these names, in the order of the names.
  abbrev pub root_over : BytesMap Hash → List (List ℕ) → Hash
  root_over s names = merkle_root_of ops blake3 (map (λ n. root_in n s) (sort_by name_before names))

  -- The root over the roots of all trees.
  abbrev pub global_root_of : BytesMap Hash → Hash
  global_root_of s = root_over s (names_of s)

  -- If the global root is clean and a root is cached for each name, it is the root over those.
  abbrev pub IsClean : TreeManager Tree → BytesMap Hash → List (List ℕ) → Type 0
  IsClean m cache names =
      m.global_root_dirty ≡ false
      → All (λ n. (h : Hash) × (find n cache ≡ some h)) names
      → m.global_root_cache ≡ root_over cache names

  -- Only roots of trees are cached, and the global root over them.
  pub record IsCurrent (s : BytesMap Hash) (m : TreeManager Tree) : Type 0 where
    pub trees : AreKept ops blake3 s m.trees
    pub narrow : IsNotWider ops blake3 s m.tree_root_cache
    pub clean : IsClean m m.tree_root_cache (names_of s)

  -- The global root is returned, and is that of the trees that are left.
  pub record IsGlobalRoot (s : BytesMap Hash) (r : Hash × TreeManager Tree) : Type 0 where
    pub root : r.0 ≡ global_root_of s
    pub current : IsCurrent s r.1
    pub cached : AreCached r.1.tree_root_cache s (names_of s)
    pub kept : r.1.global_root_cache ≡ r.0
    pub is_clean : r.1.global_root_dirty ≡ false

  pub names_of-roots : (ts : BytesMap Tree) → names_of ts ≡ names_of (roots ops blake3 ts)
  names_of-roots [] = refl
  names_of-roots ((n, t) ∷ ts) = ap (λ ns. n ∷ ns) (names_of-roots ts)

  found :
      (cache s : BytesMap Hash) (names : List (List ℕ))
      → AreCached cache s names
      → All (λ n. (h : Hash) × (find n cache ≡ some h)) names
  found cache s [] h = tt
  found cache s (n ∷ names) h = ((root_in n s, h.0), found cache s names h.1)

  root_over-AreCached :
      (cache s : BytesMap Hash)
      → AreCached cache s (names_of s)
      → root_over cache (names_of s) ≡ global_root_of s
  root_over-AreCached cache s h =
      ap (merkle_root_of ops blake3)
        (map-root_in cache s _ (All-sort_by name_before _ (names_of s) h))

  -- Nothing is to be done.
  pub at_rest :
      (s : BytesMap Hash) (m : TreeManager Tree)
      → IsCurrent s m
      → m.global_root_dirty ≡ false
      → AreCached m.tree_root_cache s (names_of s)
      → IsGlobalRoot s (m.global_root_cache, m)
  at_rest s m h clean cached = record {
    root = h.clean clean (found _ s _ cached) ∙ root_over-AreCached m.tree_root_cache s cached;
    current = h;
    cached = cached;
    kept = refl;
    is_clean = clean;
  }

  recompute-IsGlobalRoot :
      (s : BytesMap Hash) (m : TreeManager Tree)
      → AreKept ops blake3 s m.trees
      → IsNotWider ops blake3 s m.tree_root_cache
      → IsGlobalRoot s (recompute ops blake3 m)
  unfolding recompute
  recompute-IsGlobalRoot s m h narrow =
      let names = sort_by name_before (names_of m.trees) in
      let same = names_of-roots m.trees ∙ ap names_of h.1 in
      let done = collect-IsCollected ops blake3 names s m.trees m.tree_root_cache h in
      let cache = (collect ops blake3 names m.trees m.tree_root_cache).2 in
      let cached : AreCached cache s (names_of s) =
        subst (AreCached cache s) same (sort_by-All name_before _ (names_of m.trees) done.cached) in
      let root = ap (merkle_root_of ops blake3) done.hashes ∙ ap (λ ns. root_over s ns) same in
      record {
        root = root;
        current = record {
          trees = done.kept;
          narrow = λ n e.
              done.narrow n
                (All-sort_by name_before _ (names_of m.trees)
                  (subst (All (λ k. bytes_eq k n ≡ false)) (sym same) (find-none n s e)))
                (narrow n e);
          clean = λ _ _. root ∙ sym (root_over-AreCached cache s cached);
        };
        cached = cached;
        kept = refl;
        is_clean = refl;
      }

  -- After a loop over the trees that keeps the cached roots.
  checked-IsCurrent :
      (s : BytesMap Hash) (m : TreeManager Tree) (ts : BytesMap Tree) (cache : BytesMap Hash)
      → IsCurrent s m
      → AreKept ops blake3 s ts
      → cache ≡ m.tree_root_cache
      → IsCurrent s (record m { trees = ts; tree_root_cache = cache })
  checked-IsCurrent s m ts cache h kept same = record {
    trees = kept;
    narrow = λ n e. ap (find n) same ∙ h.narrow n e;
    clean = subst (λ c. IsClean m c (names_of s)) (sym same) h.clean;
  }

  under_lock-IsGlobalRoot :
      (s : BytesMap Hash) (m : TreeManager Tree)
      → IsCurrent s m
      → IsGlobalRoot s (under_lock ops blake3 m)
  unfolding under_lock
  under_lock-IsGlobalRoot s m h =
      let r = second_check ops blake3 m.tree_root_cache m.trees in
      let checked : TreeManager Tree = record m { trees = r.1; tree_root_cache = r.2 } in
      let (kept, narrow, cached) =
        subst (λ s. IsRechecked ops blake3 m.tree_root_cache s r) h.trees.1
          (second_check-IsRechecked ops blake3 m.tree_root_cache m.trees h.trees.0) in
      elim (Bool-cases m.global_root_dirty) [
        | inl e ↦ rw e (recompute-IsGlobalRoot s m h.trees h.narrow)
        | inr e ↦ elim (Bool-cases r.0) [
          | inl u ↦
              rw e (rw u (recompute-IsGlobalRoot s checked kept (λ n f. narrow n (h.narrow n f))))
          | inr u ↦
              let (same, are_cached) = cached u in
              let unchanged : under_lock ops blake3 m ≡ (m.global_root_cache, checked) =
                rw (e, under_lock) (rw u refl) in
              subst (IsGlobalRoot s) (sym unchanged) (
                at_rest s checked (checked-IsCurrent s m r.1 r.2 h kept same) e
                  (subst (λ c. AreCached c s (names_of s)) (sym same) are_cached))
        ]
      ]

  pub compute_global_root-IsGlobalRoot :
      (s : BytesMap Hash) (m : TreeManager Tree)
      → IsCurrent s m
      → (r : Hash × TreeManager Tree) × (compute_global_root ops blake3 unlocked m ≡ returned r)
        × IsGlobalRoot s r
  unfolding compute_global_root
  compute_global_root-IsGlobalRoot s m h =
      let r = first_check ops blake3 m.tree_root_cache m.trees in
      let checked : TreeManager Tree = record m { trees = r.1 } in
      let (kept, cached) =
        subst (λ s. IsChecked ops blake3 m.tree_root_cache s r) h.trees.1
          (first_check-IsChecked ops blake3 m.tree_root_cache m.trees h.trees.0) in
      let current : IsCurrent s checked = checked-IsCurrent s m r.1 m.tree_root_cache h kept refl in
      elim (Bool-cases m.global_root_dirty) [
        | inl e ↦ (under_lock ops blake3 m, rw e refl, under_lock-IsGlobalRoot s m h)
        | inr e ↦ elim (Bool-cases r.0) [
          | inl u ↦ (
            under_lock ops blake3 checked,
            rw e (rw u refl),
            under_lock-IsGlobalRoot s checked current,
          )
          | inr u ↦ (
            (m.global_root_cache, checked),
            rw e (rw u refl),
            at_rest s checked current e (cached u),
          )
        ]
      ]
