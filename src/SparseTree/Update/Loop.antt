-- ===== src/SparseTree/Update/Loop.antt =====
-- The loop of `updateBatchParallel` of smt-v3/smt.go over the runs of a sorted batch, and the node
-- that its children give.
use onchain_exchange_homewor.Prelude.{
  ℕ, zero, suc, ◌+◌, ◌<◌, ◌≤◌, List, [], ◌∷◌, ◌++◌, get_or, set, length, drop, ◌≡◌, refl, sym, ap,
  ◌∙◌, arith, All, All-split, IsSorted,
}
use mathlib.Core.Path.{subst}
use onchain_exchange_homewor.MerkleTree.Types.{Hash}
use onchain_exchange_homewor.SparseTree.Types.{
  Pair, Node, empty_hash, Store, Result, ok, Run, continue, ◌>>=◌, pure,
}
use onchain_exchange_homewor.SparseTree.Nodes.{byte_at}
use onchain_exchange_homewor.SparseTree.Nodes.Stored.{Below, Extends, value_at}
use onchain_exchange_homewor.SparseTree.Nodes.Reads.{Below-next, IsCollisionFree, IsContent}
use onchain_exchange_homewor.SparseTree.Update.{
  key_before, run_of, Left, distribute, spread, collapse,
}
use onchain_exchange_homewor.SparseTree.Update.Sorted.{
  after, after-append, run_of-append_drop, run_of-All, run_of-rest, IsSorted-split,
}
use onchain_exchange_homewor.SparseTree.Update.Collapse.{AreStored, collapse-Joins}
use onchain_exchange_homewor.SparseTree.Update.Spread.{
  Fits, AreBelow, Fits-first, Fits-rest, run-AreBelow, bytes_least, Leaves, Updates, set-AreStored,
}
use onchain_exchange_homewor.SparseTree.Update.Rounds.{length-drop, distribute_step, child_values}

module _ (node_hash : Node → Hash) (free : IsCollisionFree node_hash) (levels : ℕ)
    (path : List ℕ) where
  -- A run that leaves the children with the values that the batch writes.
  abbrev pub Spreads :
      List Hash → List Pair → List Pair → Store → Result (Left (List Hash)) × Store → Type 0
  Spreads cs xs behind st r =
      (kids : List Hash) × (new : Store) × (r ≡ (ok (kids, xs, behind), new))
      × IsContent node_hash new
      × Extends st new
      × AreStored node_hash free new levels path kids
      × ((key : List ℕ)
          → Below path (suc levels) key
          → value_at levels new (get_or kids (byte_at (length path) key) empty_hash) key
              (length path + 1)
            ≡ after key
                (value_at levels st (get_or cs (byte_at (length path) key) empty_hash) key
                  (length path + 1))
                xs)

  module _ (below : Hash → List Pair → List Pair → Run (Left Hash))
      (each : (idx : ℕ) → idx < 256 → Updates node_hash levels (path ++ (idx ∷ [])) below) where
    distribute-Spreads :
        (rounds : ℕ) (cs : List Hash) (xs behind : List Pair) (st : Store)
        → length xs ≤ rounds
        → IsContent node_hash st
        → AreStored node_hash free st levels path cs
        → AreBelow path (suc levels) xs
        → IsSorted key_before xs
        → Fits (length path) cs xs behind
        → Spreads cs xs behind st (distribute below (length path) rounds cs xs behind st)
    unfolding distribute
    distribute-Spreads rounds cs [] behind st enough content stored bs sorted fits =
        (cs, st, refl, content, λ h n at. at, stored, λ key b. refl)
    distribute-Spreads zero cs (p ∷ xs) behind st enough content stored bs sorted fits =
        absurd (omega arith)
    distribute-Spreads (suc rounds) cs (p ∷ xs) behind st enough content stored bs sorted fits =
        let depth = length path in
        let idx = byte_at depth p.k in
        let run = run_of depth idx xs in
        let rest = drop (length run) xs in
        let whole : (p ∷ run) ++ rest ≡ p ∷ xs = ap (◌∷◌ p) (run_of-append_drop depth idx xs) in
        let (small, next) = Below-next path levels p.k bs.0 in
        let at : All (λ q. byte_at depth q.k ≡ idx) (p ∷ run) = (refl, run_of-All depth idx xs) in
        let (bs_run, bs_rest) =
          All-split (λ q. Below path (suc levels) q.k) (p ∷ run) rest
            (subst (AreBelow path (suc levels)) (sym whole) bs) in
        let (sorted_run, sorted_rest) =
          IsSorted-split (p ∷ run) rest (subst (IsSorted key_before) (sym whole) sorted) in
        let above =
          run_of-rest path levels idx xs bs.1 sorted.1
            (bytes_least path levels p xs bs.0 bs.1 sorted.0) in
        let left =
          each idx small (get_or cs idx empty_hash) (p ∷ run) (rest ++ behind) st content
            (stored.1 idx small) (run-AreBelow path levels idx (p ∷ run) at bs_run) sorted_run
            (Fits-first depth idx cs p xs behind refl fits) in
        let next_values =
          child_values node_hash free levels path idx cs (p ∷ run) (rest ++ behind) st
            (below (get_or cs idx empty_hash) (p ∷ run) (rest ++ behind) st) small content stored at
            left in
        let (h, mid, e1, c1, m1, s1, v1) = left in
        let sizes : length rest ≤ rounds =
          let shorter = length-drop (length run) xs in omega arith in
        let (kids, new, e2, c2, m2, s2, v2) =
          distribute-Spreads rounds (set cs idx h) rest behind mid sizes c1
            (set-AreStored node_hash free levels path cs idx h st mid small m1 stored s1) bs_rest
            sorted_rest (Fits-rest depth idx cs h p xs behind fits above) in
        (
          kids,
          new,
          distribute_step below depth rounds cs p xs behind st h mid kids new e1 e2,
          c2,
          λ h n found. m2 h n (m1 h n found),
          s2,
          λ key b.
              v2 key b
              ∙ ap (λ o. after key o rest) (next_values key b)
              ∙ sym (
                  after-append key
                    (value_at levels st (get_or cs (byte_at depth key) empty_hash) key (depth + 1))
                    (p ∷ run) rest)
              ∙ ap
                  (after key
                    (value_at levels st (get_or cs (byte_at depth key) empty_hash) key (depth + 1)))
                  whole,
        )

    -- The new root of a node with these children.
    pub spread-Leaves :
        (cs : List Hash) (xs behind : List Pair) (st : Store)
        → IsContent node_hash st
        → AreStored node_hash free st levels path cs
        → AreBelow path (suc levels) xs
        → IsSorted key_before xs
        → Fits (length path) cs xs behind
        → Leaves node_hash
            (suc levels)
            path
            (λ key.
              value_at levels st
                (get_or cs (byte_at (length path) key) empty_hash)
                key
                (length path + 1))
            xs
            behind
            st
            (spread node_hash below (length path) cs xs behind st)
    unfolding spread
    spread-Leaves cs xs behind st content stored bs sorted fits =
        let (kids, mid, e1, c1, m1, s1, v1) =
          distribute-Spreads (length xs) cs xs behind st (omega arith) content stored bs sorted
            fits in
        let (h, new, e2, c2, m2, s2, v2) =
          collapse-Joins node_hash free levels path kids mid c1 s1 in
        (
          h,
          new,
          ap (λ r. continue r (λ l. collapse node_hash l.0 >>= λ h. pure (h, l.1, l.2))) e1
              ∙ ap (λ r. continue r (λ h. pure (h, xs, behind))) e2,
          c2,
          λ h n found. m2 h n (m1 h n found),
          s2,
          λ key b. v2 key b ∙ v1 key b,
        )
