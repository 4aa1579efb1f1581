-- ===== src/SparseTree/Update/Levels.antt =====
-- `updateBatchParallel` of smt-v3/smt.go, on all its branches.
use onchain_exchange_homewor.Prelude.{
  ℕ, zero, suc, ◌+◌, ◌<◌, true, false, none, some, List, [], ◌∷◌, ◌++◌, if◌then◌else◌, get_or,
  length, length-append, ◌≡◌, inl, inr, refl, sym, ap, ◌∙◌, arith, Bool-cases, IsSorted,
}
use mathlib.Core.Path.{subst}
use onchain_exchange_homewor.MerkleTree.Types.{Hash, bytes_eq}
use onchain_exchange_homewor.MerkleTree.Hashing.Caching.{bytes_eq_sound}
use onchain_exchange_homewor.SparseTree.Types.{
  Pair, Node, leaf, empty_hash, Store, find, load_node, ok, Run, continue, pure,
}
use onchain_exchange_homewor.SparseTree.Nodes.{byte_at, node_of}
use onchain_exchange_homewor.SparseTree.Nodes.Stored.{
  Below, IsStored, value_at, children_of-node_of,
}
use onchain_exchange_homewor.SparseTree.Nodes.Reads.{
  IsCollisionFree, IsContent, value_at-empty_hash, value_at-leaf, value_at-node_of, not_both,
}
use onchain_exchange_homewor.SparseTree.Update.{
  key_before, has_key, Left, no_children, last_of, spread, at_stored, update_batch,
}
use onchain_exchange_homewor.SparseTree.Update.Sorted.{after}
use onchain_exchange_homewor.SparseTree.Update.Collapse.{AreStored}
use onchain_exchange_homewor.SparseTree.Update.Spread.{Ready, AreBelow, Leaves, Updates}
use onchain_exchange_homewor.SparseTree.Update.Loop.{spread-Leaves}
use onchain_exchange_homewor.SparseTree.Update.Correct.{
  no_children-AreStored, no_children-value, write_pair_lem, after-last_of, at_empty-Leaves,
  append_pair-Leaves, Leaves-old, same_end,
}

pub load_node-found :
    (st : Store) (h : Hash) (n : Node) → find h st ≡ some n → load_node st h ≡ ok n
unfolding load_node
load_node-found st h n at = rw (at, load_node) refl

-- A pair with the key of a leaf takes its place.
overwritten :
    (key k v : List ℕ) (p : Pair)
    → bytes_eq p.k k ≡ true
    → (if bytes_eq p.k key then p.v else none)
      ≡ (if bytes_eq p.k key then p.v else if bytes_eq k key then some v else none)
overwritten key k v p e = elim (Bool-cases (bytes_eq p.k key)) [
  | inl a ↦ rw a refl
  | inr a ↦ rw (a, sym (ap (λ j. bytes_eq j key) (bytes_eq_sound p.k k e)) ∙ a) refl
]

module _ (node_hash : Node → Hash) (spare : ℕ → ℕ) (free : IsCollisionFree node_hash) where
  update_batch_end :
      (path : List ℕ) (root : Hash) (p : Pair) (xs behind : List Pair) (st : Store)
      → IsContent node_hash st
      → AreBelow path zero (p ∷ xs)
      → Leaves node_hash zero path
          (λ key. value_at zero st root key (length path))
          (p ∷ xs)
          behind
          st
          (update_batch node_hash spare zero (length path) root (p ∷ xs) behind st)
  unfolding update_batch
  update_batch_end path root p xs behind st content bs =
      let last = last_of p xs in
      let (_, under) = after-last_of node_hash spare free path p.k none p xs bs.0 bs.0 bs.1 in
      let (h, new, e, c, m, s, v) =
        write_pair_lem node_hash spare free zero path last.k last.v st content under in
      (
        h,
        new,
        ap (λ r. continue r (λ h. pure (h, p ∷ xs, behind))) e,
        c,
        m,
        s,
        λ key b.
            v key (length path)
            ∙ ap (λ t. if t then last.v else none) (same_end path key last.k b under)
            ∙ sym
                (after-last_of node_hash spare free path key
                  (value_at zero st root key (length path)) p xs b bs.0 bs.1).0,
      )

  module _ (levels : ℕ) (path : List ℕ) (below : Hash → List Pair → List Pair → Run (Left Hash))
      (each : (idx : ℕ) → idx < 256 → Updates node_hash levels (path ++ (idx ∷ [])) below) where
    -- Where a leaf is stored, a single pair takes its place or stands beside it.
    leaf-Leaves :
        (k v : List ℕ) (p : Pair) (st : Store)
        → IsContent node_hash st
        → Below path (suc levels) k
        → Below path (suc levels) p.k
        → Leaves node_hash
            (suc levels)
            path
            (λ key. if bytes_eq k key then some v else none)
            (p ∷ [])
            []
            st
            (at_stored node_hash spare below (length path) (ok (leaf k v)) (p ∷ []) [] st)
    unfolding at_stored has_key
    leaf-Leaves k v p st content bk bp = elim (Bool-cases (bytes_eq p.k k)) [
      | inl e ↦ rw e (
          Leaves-old node_hash spare free (suc levels) path _ _ (p ∷ []) [] st _
            (λ key b.
              ap (λ o. after key o (p ∷ []))
                (no_children-value node_hash spare free levels st (byte_at (length path) key) key
                  (length path + 1))
              ∙ overwritten key k v p e)
            (spread-Leaves node_hash free levels path below each no_children (p ∷ []) [] st content
              (no_children-AreStored node_hash spare free st levels path) (bp, tt) (tt, tt)
              (inr (refl, refl))))
      | inr e ↦
          rw e (
            append_pair-Leaves node_hash spare free levels path below each k v p st content bk bp e)
    ]

    -- Where an internal node is stored, a single pair goes to one of its children.
    node-Leaves :
        (cs : List Hash) (p : Pair) (st : Store)
        → IsContent node_hash st
        → AreStored node_hash free st levels path cs
        → AreBelow path (suc levels) (p ∷ [])
        → IsSorted key_before (p ∷ [])
        → Leaves node_hash
            (suc levels)
            path
            (λ key.
              value_at levels st
                (get_or cs (byte_at (length path) key) empty_hash)
                key
                (length path + 1))
            (p ∷ [])
            []
            st
            (at_stored node_hash spare below (length path) (ok (node_of cs)) (p ∷ []) [] st)
    unfolding at_stored node_of
    node-Leaves cs p st content stored bs sorted =
        subst
          (λ kids.
            Leaves node_hash (suc levels) path
              (λ key.
                value_at levels st (get_or cs (byte_at (length path) key) empty_hash) key
                  (length path + 1))
              (p ∷ []) [] st (spread node_hash below (length path) kids (p ∷ []) [] st))
          (sym (children_of-node_of cs))
          (spread-Leaves node_hash free levels path below each cs (p ∷ []) [] st content stored bs
            sorted (inr (refl, refl)))

    at_stored-Leaves :
        (root : Hash) (p : Pair) (xs behind : List Pair) (st : Store)
        → IsContent node_hash st
        → IsStored st (suc levels) path root
        → AreBelow path (suc levels) (p ∷ xs)
        → IsSorted key_before (p ∷ xs)
        → bytes_eq root empty_hash ≡ false
        → Ready root (p ∷ xs) behind
        → Leaves node_hash
            (suc levels)
            path
            (λ key. value_at (suc levels) st root key (length path))
            (p ∷ xs)
            behind
            st
            (at_stored node_hash spare below (length path) (load_node st root) (p ∷ xs) behind st)
    at_stored-Leaves root p xs behind st content stored bs sorted live (inl e) =
        not_both root live e
    at_stored-Leaves root p xs behind st content (inl e) bs sorted live ready = not_both root live e
    at_stored-Leaves root p (q ∷ xs) behind st content stored bs sorted live (inr (one, alone)) =
        absurd (omega (arith, one))
    at_stored-Leaves root p [] behind st content (inr (inl (k, v, at, under))) bs sorted live
          (inr (one, alone)) =
        subst
          (λ end.
            Leaves node_hash (suc levels) path
              (λ key. value_at (suc levels) st root key (length path)) (p ∷ []) end st
              (at_stored node_hash spare below (length path) (load_node st root) (p ∷ []) end st))
          (sym alone)
          (subst
            (λ r.
              Leaves node_hash (suc levels) path
                (λ key. value_at (suc levels) st root key (length path)) (p ∷ []) [] st
                (at_stored node_hash spare below (length path) r (p ∷ []) [] st))
            (sym (load_node-found st root (leaf k v) at))
            (Leaves-old node_hash spare free (suc levels) path _ _ (p ∷ []) [] st _
              (λ key b.
                ap (λ o. after key o (p ∷ []))
                  (sym (
                    value_at-leaf node_hash free (suc levels) st root key (length path) k v content
                      at)))
              (leaf-Leaves k v p st content under bs.0)))
    at_stored-Leaves root p [] behind st content (inr (inr (cs, at, size, branching, kids))) bs
          sorted live (inr (one, alone)) =
        subst
          (λ end.
            Leaves node_hash (suc levels) path
              (λ key. value_at (suc levels) st root key (length path)) (p ∷ []) end st
              (at_stored node_hash spare below (length path) (load_node st root) (p ∷ []) end st))
          (sym alone)
          (subst
            (λ r.
              Leaves node_hash (suc levels) path
                (λ key. value_at (suc levels) st root key (length path)) (p ∷ []) [] st
                (at_stored node_hash spare below (length path) r (p ∷ []) [] st))
            (sym (load_node-found st root (node_of cs) at))
            (Leaves-old node_hash spare free (suc levels) path _ _ (p ∷ []) [] st _
              (λ key b.
                ap (λ o. after key o (p ∷ []))
                  (sym (
                    value_at-node_of node_hash free levels st root key (length path) cs content
                      at)))
              (node-Leaves cs p st content (size, kids) bs sorted)))

  -- Every level.
  pub update_batch-Updates :
      (levels : ℕ) (path : List ℕ)
      → Updates node_hash levels path (update_batch node_hash spare levels (length path))
  unfolding update_batch
  update_batch-Updates levels path root [] behind st content stored bs sorted ready =
      (root, st, refl, content, λ h n at. at, stored, λ key b. refl)
  update_batch-Updates zero path root (p ∷ xs) behind st content stored bs sorted ready =
      update_batch_end path root p xs behind st content bs
  update_batch-Updates (suc levels) path root (p ∷ xs) behind st content stored bs sorted ready =
      let below = update_batch node_hash spare levels (length path + 1) in
      let each : (idx : ℕ) → idx < 256 → Updates node_hash levels (path ++ (idx ∷ [])) below =
        λ idx small.
          subst
            (λ d.
              Updates node_hash levels (path ++ (idx ∷ [])) (update_batch node_hash spare levels d))
            (length-append path (idx ∷ [])) (update_batch-Updates levels (path ++ (idx ∷ []))) in
      elim (Bool-cases (bytes_eq root empty_hash)) [
        | inl e ↦ rw e (
            Leaves-old node_hash spare free (suc levels) path _ _ (p ∷ xs) behind st _
              (λ key b.
                ap (λ o. after key o (p ∷ xs))
                  (sym (
                    ap (λ h. value_at (suc levels) st h key (length path))
                      (bytes_eq_sound root empty_hash e)
                    ∙ value_at-empty_hash (suc levels) st key (length path))))
              (at_empty-Leaves node_hash spare free levels path below each p xs behind st content bs
                sorted))
        | inr e ↦ rw e (
            at_stored-Leaves levels path below each root p xs behind st content stored bs sorted e
              ready)
      ]
