-- ===== src/SparseTree/Update/Overwrites.antt =====
-- The `append` of `updateBatchParallel` of smt-v3/smt.go to a part of a batch that more pairs follow.
use onchain_exchange_homewor.Prelude.{
  ℕ, zero, suc, ◌+◌, ◌<◌, false, some, List, [], ◌∷◌, ◌++◌, if◌then◌else◌, length, length-append,
  drop, take, ◌≡◌, refl, ap, ◌∙◌, All-append, sort_by, All-sort_by,
}
use mathlib.Core.Path.{subst}
use onchain_exchange_homewor.MerkleTree.Types.{Hash}
use onchain_exchange_homewor.SparseTree.Types.{
  Pair, Node, leaf, Store, find, load_node, ok, continue, pure,
}
use onchain_exchange_homewor.SparseTree.Nodes.Stored.{Below}
use onchain_exchange_homewor.SparseTree.Nodes.Reads.{IsCollisionFree, IsContent, not-empty_hash}
use onchain_exchange_homewor.SparseTree.Update.{
  key_before, has_key, no_children, spread, append_pair, at_stored, at_empty, update_batch,
}
use onchain_exchange_homewor.SparseTree.Update.Sorted.{sort_by-key_before}
use onchain_exchange_homewor.SparseTree.Update.Spread.{AreBelow, Updates}
use onchain_exchange_homewor.SparseTree.Update.Loop.{spread-Leaves}
use onchain_exchange_homewor.SparseTree.Update.Correct.{no_children-AreStored, no_children-Fits}
use onchain_exchange_homewor.SparseTree.Update.Levels.{load_node-found, update_batch-Updates}

take-drop-append : {A : Type 0} (n : ℕ) (xs ys : List A) → take n xs ++ (drop n xs ++ ys) ≡ xs ++ ys
take-drop-append zero xs ys = refl
take-drop-append (suc n) [] ys = refl
take-drop-append (suc n) (x ∷ xs) ys = ap (◌∷◌ x) (take-drop-append n xs ys)

module _ (node_hash : Node → Hash) (spare : ℕ → ℕ) (free : IsCollisionFree node_hash) where
  -- Where a leaf is stored whose key is not in a batch, and another pair follows the batch in its
  -- array, the update returns a root and no error, but the array then holds the batch and the leaf,
  -- sorted, in place of the batch and that pair: the pair is lost.
  pub update_batch-overwrites :
      (levels : ℕ) (path k v : List ℕ) (root : Hash) (p : Pair) (xs : List Pair) (next : Pair)
      (behind : List Pair) (st : Store)
      → IsContent node_hash st
      → find root st ≡ some (leaf k v)
      → Below path (suc levels) k
      → AreBelow path (suc levels) (p ∷ xs)
      → has_key k (p ∷ xs) ≡ false
      → (h : Hash) × (batch : List Pair) × (rest : List Pair) × (new : Store) × (update_batch
            node_hash spare
            (suc levels)
            (length path)
            root
            (p ∷ xs)
            (next ∷ behind)
            st
          ≡ (ok (h, batch, rest), new))
        × (batch ++ rest
            ≡ sort_by key_before ((p ∷ xs) ++ (record { k = k; v = some v } ∷ [])) ++ behind)
  unfolding update_batch at_stored append_pair
  update_batch-overwrites levels path k v root p xs next behind st content at under bs missing =
      let below = update_batch node_hash spare levels (length path + 1) in
      let each : (idx : ℕ) → idx < 256 → Updates node_hash levels (path ++ (idx ∷ [])) below =
        λ idx small.
          subst
            (λ d.
              Updates node_hash levels (path ++ (idx ∷ [])) (update_batch node_hash spare levels d))
            (length-append path (idx ∷ []))
            (update_batch-Updates node_hash spare free levels (path ++ (idx ∷ []))) in
      let all = (p ∷ xs) ++ (record { k = k; v = some v } ∷ []) in
      let ys = sort_by key_before all in
      let n = length (p ∷ xs) in
      let (h, new, e, _, _, _, _) =
        spread-Leaves node_hash free levels path below each no_children ys behind st content
          (no_children-AreStored node_hash spare free st levels path)
          (All-sort_by key_before (λ q. Below path (suc levels) q.k) all
            (All-append (λ q. Below path (suc levels) q.k) (p ∷ xs)
              (record { k = k; v = some v } ∷ []) bs (under, tt)))
          (sort_by-key_before all)
          (no_children-Fits node_hash spare free (length path) ys behind) in
      (
        h,
        take n ys,
        drop n ys ++ behind,
        new,
        ap
              (λ b.
                if b
                then at_empty node_hash below (length path) (p ∷ xs) (next ∷ behind) st
                else at_stored node_hash spare below (length path) (load_node st root) (p ∷ xs)
                    (next ∷ behind) st)
              (not-empty_hash node_hash free st root (leaf k v) content at)
            ∙ ap (λ r. at_stored node_hash spare below (length path) r (p ∷ xs) (next ∷ behind) st)
                (load_node-found st root (leaf k v) at)
            ∙ ap
                (λ b.
                  (if b
                      then spread node_hash below (length path) no_children (p ∷ xs) (next ∷ behind)
                      else append_pair node_hash spare below (length path)
                          (record { k = k; v = some v }) (p ∷ xs) (next ∷ behind))
                    st)
                missing
            ∙ ap (λ r. continue r (λ l. pure (l.0, take n l.1, drop n l.1 ++ l.2))) e,
        take-drop-append n ys behind,
      )
