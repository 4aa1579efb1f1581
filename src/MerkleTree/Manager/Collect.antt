-- ===== src/MerkleTree/Manager/Collect.antt =====
-- What `ComputeGlobalRoot` collects by name: the roots of the trees, which it also caches.
use onchain_exchange_homewor.Prelude.{
  ℕ, false, none, some, List, [], ◌∷◌, map, All, ◌≡◌, refl, ap, ◌∙◌, inl, inr, Bool-cases,
}
use mathlib.Core.Path.{subst}
use onchain_exchange_homewor.MerkleTree.Types.{Hash, bytes_eq, bytes_eq_refl}
use onchain_exchange_homewor.MerkleTree.Hashing.Caching.{bytes_eq_sound}
use onchain_exchange_homewor.SparseTree.Types.{BytesMap, find, put}
use onchain_exchange_homewor.SparseTree.Nodes.Stored.{find-put}
use onchain_exchange_homewor.MerkleTree.Manager.Interface.{Trees}
use onchain_exchange_homewor.MerkleTree.Manager.{compute_named, collect}
use onchain_exchange_homewor.MerkleTree.Manager.Loops.{
  root_in, AreCached, roots, AllTrees, AreKept, AreKept_cons,
}

module _ {T : Type 0} (ops : Trees T) (blake3 : List ℕ → Hash) where
  open ops use {Tree, compute_root, IsTree, root_of, compute_root_lem}

  abbrev pub IsNamed : List ℕ → BytesMap Hash → Hash × BytesMap Tree → Type 0
  IsNamed name s r = (r.0 ≡ root_in name s) × AreKept ops blake3 s r.1

  pub compute_named-IsNamed :
      (name : List ℕ) (ts : BytesMap Tree)
      → AllTrees ops blake3 ts
      → IsNamed name (roots ops blake3 ts) (compute_named ops blake3 name ts)
  unfolding compute_named
  compute_named-IsNamed name [] h = (refl, (tt, refl))
  compute_named-IsNamed name ((n, t) ∷ ts) h =
      let (same, is_tree, kept) = compute_root_lem t h.0 in
      let (named, rest) = compute_named-IsNamed name ts h.1 in
      elim (Bool-cases (bytes_eq n name)) [
        | inl a ↦ rw a (same, AreKept_cons ops blake3 n (root_of t) _ _ _ is_tree kept (h.1, refl))
        | inr a ↦ rw a (named, AreKept_cons ops blake3 n (root_of t) _ _ _ h.0 refl rest)
      ]

  -- The roots of these names, and the cache with them.
  pub record IsCollected (names : List (List ℕ)) (s cache : BytesMap Hash)
      (r : List Hash × BytesMap Tree × BytesMap Hash) : Type 0 where
    pub hashes : r.0 ≡ map (λ n. root_in n s) names
    pub kept : AreKept ops blake3 s r.1
    pub narrow :
        (n : List ℕ)
        → All (λ k. bytes_eq k n ≡ false) names
        → find n cache ≡ none
        → find n r.2 ≡ none
    pub same : (n : List ℕ) → find n cache ≡ some (root_in n s) → find n r.2 ≡ some (root_in n s)
    pub cached : AreCached r.2 s names

  pub collect-IsCollected :
      (names : List (List ℕ)) (s : BytesMap Hash) (ts : BytesMap Tree) (cache : BytesMap Hash)
      → AreKept ops blake3 s ts
      → IsCollected names s cache (collect ops blake3 names ts cache)
  unfolding collect
  collect-IsCollected [] s ts cache h = record {
    hashes = refl;
    kept = h;
    narrow = λ n _ e. e;
    same = λ n e. e;
    cached = tt;
  }
  collect-IsCollected (name ∷ names) s ts cache h =
      let (h1, kept) =
        subst (λ s. IsNamed name s (compute_named ops blake3 name ts)) h.1
          (compute_named-IsNamed name ts h.0) in
      let h' = (compute_named ops blake3 name ts).0 in
      let rest = collect-IsCollected names s _ (put name h' cache) kept in
      record {
        hashes = ap (λ xs. h' ∷ xs) rest.hashes ∙ ap (λ x. x ∷ map (λ n. root_in n s) names) h1;
        kept = rest.kept;
        narrow = λ n others e. rest.narrow n others.1 (find-put name n h' cache ∙ rw others.0 e);
        same = λ n e. rest.same n (
            find-put name n h' cache ∙ elim (Bool-cases (bytes_eq name n)) [
              | inl a ↦ rw a (ap some (h1 ∙ ap (λ n. root_in n s) (bytes_eq_sound name n a)))
              | inr a ↦ rw a e
            ]);
        cached = (
          rest.same name (find-put name name h' cache ∙ rw (bytes_eq_refl name) (ap some h1)),
          rest.cached,
        );
      }
