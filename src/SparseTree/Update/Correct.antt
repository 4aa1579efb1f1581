-- ===== src/SparseTree/Update/Correct.antt =====
-- `updateBatchParallel` of smt-v3/smt.go on what is stored below a path.
use onchain_exchange_homewor.Prelude.{
  ℕ, zero, suc, ◌+◌, ◌<◌, true, false, Option, none, some, List, [], ◌∷◌, ◌++◌, if◌then◌else◌,
  get_or, length, replicate, ◌≡◌, inl, refl, sym, ap, ◌∙◌, arith, All, IsSorted, sort_by,
  All-sort_by,
}
use mathlib.Core.Path.{subst}
use onchain_exchange_homewor.MerkleTree.Types.{Hash, bytes_eq, bytes_eq_refl}
use onchain_exchange_homewor.SparseTree.Types.{
  Pair, Node, leaf, empty_hash, Store, put, Result, ok, Run, continue, pure,
}
use onchain_exchange_homewor.SparseTree.Nodes.{byte_at, save}
use onchain_exchange_homewor.SparseTree.Nodes.Stored.{
  Below, IsStored, IsStored-empty_hash, IsLeafAt-IsStored, Extends, value_at,
}
use onchain_exchange_homewor.SparseTree.Nodes.Reads.{
  IsCollisionFree, IsContent, value_at-empty_hash, value_at-leaf, put-IsContent, put-Extends,
  find-put_here,
}
use onchain_exchange_homewor.SparseTree.Update.{
  key_before, Left, zero_pair, no_children, last_of, write_pair, append_pair, at_empty,
}
use onchain_exchange_homewor.SparseTree.Update.Sorted.{
  after, AreDistinct, after-sort_by, swap_writes, sort_by-key_before,
}
use onchain_exchange_homewor.SparseTree.Update.Collapse.{AreStored}
use onchain_exchange_homewor.SparseTree.Update.Spread.{Fits, AreBelow, Leaves, Updates}
use onchain_exchange_homewor.SparseTree.Update.Loop.{spread-Leaves}

get_or-replicate : {A : Type 0} (n i : ℕ) (d : A) → get_or (replicate n d) i d ≡ d
get_or-replicate zero i d = refl
get_or-replicate (suc n) zero d = refl
get_or-replicate (suc n) (suc i) d = get_or-replicate n i d

-- Two keys at the end of a path.
pub same_end : (path a b : List ℕ) → Below path zero a → Below path zero b → bytes_eq b a ≡ true
same_end path a b ([], e, n, _) ([], f, m, _) = ap (λ k. bytes_eq k a) (f ∙ sym e) ∙ bytes_eq_refl a
same_end path a b (x ∷ r, e, n, _) c = absurd (omega arith)
same_end path a b ([], e, n, _) (y ∷ r, f, m, _) = absurd (omega arith)

module _ (node_hash : Node → Hash) (spare : ℕ → ℕ) (free : IsCollisionFree node_hash) where
  -- A single pair below a path.
  pub write_pair_lem :
      (levels : ℕ) (path : List ℕ) (k : List ℕ) (v : Option (List ℕ)) (st : Store)
      → IsContent node_hash st
      → Below path levels k
      → (h : Hash) × (new : Store) × (write_pair node_hash (record { k = k; v = v }) st
          ≡ (ok h, new))
        × IsContent node_hash new
        × Extends st new
        × IsStored new levels path h
        × ((key : List ℕ) (depth : ℕ)
            → value_at levels new h key depth ≡ (if bytes_eq k key then v else none))
  unfolding write_pair save
  write_pair_lem levels path k none st content below = (
    empty_hash,
    st,
    refl,
    content,
    λ h n at. at,
    IsStored-empty_hash st levels path,
    λ key depth. value_at-empty_hash levels st key depth ∙ ground arith,
  )
  write_pair_lem levels path k (some v) st content below =
      let n = leaf k v in
      let c = put-IsContent node_hash free n st content in
      let at = find-put_here (node_hash n) n st in
      (
        node_hash n,
        put (node_hash n) n st,
        refl,
        c,
        put-Extends node_hash free n st content,
        IsLeafAt-IsStored (put (node_hash n) n st) levels path (node_hash n) (k, v, at, below),
        λ key depth.
            value_at-leaf node_hash free levels (put (node_hash n) n st) (node_hash n) key depth k v
              c at,
      )

  -- At the end of the path every pair has the same key.
  pub after-last_of :
      (path key : List ℕ) (old : Option (List ℕ)) (p : Pair) (xs : List Pair)
      → Below path zero key
      → Below path zero p.k
      → AreBelow path zero xs
      → (after key old (p ∷ xs) ≡ (last_of p xs).v) × Below path zero (last_of p xs).k
  after-last_of path key old p [] b c bs = (rw (same_end path key p.k b c) refl, c)
  after-last_of path key old p (q ∷ xs) b c bs =
      after-last_of path key (if bytes_eq p.k key then p.v else old) q xs b bs.0 bs.1

  pub no_children-AreStored :
      (st : Store) (levels : ℕ) (path : List ℕ)
      → AreStored node_hash free st levels path no_children
  no_children-AreStored st levels path = (
    refl,
    λ i h.
        subst (IsStored st levels (path ++ (i ∷ []))) (sym (get_or-replicate 256 i empty_hash))
          (IsStored-empty_hash st levels (path ++ (i ∷ []))),
  )

  pub no_children-Fits : (depth : ℕ) (xs behind : List Pair) → Fits depth no_children xs behind
  no_children-Fits depth xs behind = inl (all xs)
    where
      all :
          (xs : List Pair)
          → All (λ p. get_or no_children (byte_at depth p.k) empty_hash ≡ empty_hash) xs
      all [] = tt
      all (p ∷ xs) = (get_or-replicate 256 (byte_at depth p.k) empty_hash, all xs)

  pub no_children-value :
      (levels : ℕ) (st : Store) (i : ℕ) (key : List ℕ) (depth : ℕ)
      → value_at levels st (get_or no_children i empty_hash) key depth ≡ none
  no_children-value levels st i key depth =
      ap (λ c. value_at levels st c key depth) (get_or-replicate 256 i empty_hash)
      ∙ value_at-empty_hash levels st key depth

  -- The values before a batch, written in another way.
  pub Leaves-old :
      (levels : ℕ) (path : List ℕ) (old new : List ℕ → Option (List ℕ)) (xs behind : List Pair)
      (st : Store) (r : Result (Left Hash) × Store)
      → ((key : List ℕ) → Below path levels key → after key (old key) xs ≡ after key (new key) xs)
      → Leaves node_hash levels path old xs behind st r
      → Leaves node_hash levels path new xs behind st r
  Leaves-old levels path old new xs behind st r same (h, end, e, c, m, s, v) =
      (h, end, e, c, m, s, λ key b. v key b ∙ same key b)

  module _ (levels : ℕ) (path : List ℕ) (below : Hash → List Pair → List Pair → Run (Left Hash))
      (each : (idx : ℕ) → idx < 256 → Updates node_hash levels (path ++ (idx ∷ [])) below) where
    -- Where nothing is stored.
    pub at_empty-Leaves :
        (p : Pair) (xs behind : List Pair) (st : Store)
        → IsContent node_hash st
        → AreBelow path (suc levels) (p ∷ xs)
        → IsSorted key_before (p ∷ xs)
        → Leaves node_hash
            (suc levels)
            path
            (λ key. none)
            (p ∷ xs)
            behind
            st
            (at_empty node_hash below (length path) (p ∷ xs) behind st)
    unfolding at_empty
    at_empty-Leaves p [] behind st content bs sorted =
        let (h, new, e, c, m, s, v) = write_pair_lem (suc levels) path p.k p.v st content bs.0 in
        (
          h,
          new,
          ap (λ r. continue r (λ h. pure (h, p ∷ [], behind))) e,
          c,
          m,
          s,
          λ key b. v key (length path),
        )
    at_empty-Leaves p (q ∷ xs) behind st content bs sorted =
        Leaves-old (suc levels) path _ _ (p ∷ q ∷ xs) behind st _
          (λ key b.
            ap (λ o. after key o (p ∷ q ∷ xs))
              (no_children-value levels st (byte_at (length path) key) key (length path + 1)))
          (spread-Leaves node_hash free levels path below each no_children (p ∷ q ∷ xs) behind st
            content (no_children-AreStored st levels path) bs sorted
            (no_children-Fits (length path) (p ∷ q ∷ xs) behind))

    -- A leaf with another key than the batch's.
    pub append_pair-Leaves :
        (k v : List ℕ) (p : Pair) (st : Store)
        → IsContent node_hash st
        → Below path (suc levels) k
        → Below path (suc levels) p.k
        → bytes_eq p.k k ≡ false
        → Leaves node_hash
            (suc levels)
            path
            (λ key. if bytes_eq k key then some v else none)
            (p ∷ [])
            []
            st
            (append_pair node_hash spare below
              (length path)
              (record { k = k; v = some v })
              (p ∷ [])
              []
              st)
    unfolding append_pair
    append_pair-Leaves k v p st content bk bp other =
        let s : Pair = record { k = k; v = some v } in
        let xs = p ∷ s ∷ [] in
        let ys = sort_by key_before xs in
        let distinct : AreDistinct xs = ((other, tt), (tt, tt)) in
        let (h, new, e, c, m, i, values) =
          spread-Leaves node_hash free levels path below each no_children ys
            (replicate (spare 1) zero_pair) st content (no_children-AreStored st levels path)
            (All-sort_by key_before (λ q. Below path (suc levels) q.k) xs (bp, (bk, tt)))
            (sort_by-key_before xs)
            (no_children-Fits (length path) ys (replicate (spare 1) zero_pair)) in
        (
          h,
          new,
          ap (λ r. continue r (λ r. pure (r.0, p ∷ [], []))) e,
          c,
          m,
          i,
          λ key b.
              values key b
              ∙ ap (λ o. after key o ys)
                  (no_children-value levels st (byte_at (length path) key) key (length path + 1))
              ∙ after-sort_by key none xs distinct
              ∙ swap_writes key none p s other,
        )
