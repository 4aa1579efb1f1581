-- ===== src/SparseTree/Update/Rounds.antt =====
-- One round of the loop of `updateBatchParallel` of smt-v3/smt.go over the runs of a batch.
use onchain_exchange_homewor.Prelude.{
  ℕ, zero, suc, ◌+◌, ◌<◌, ◌≤◌, Option, List, [], ◌∷◌, ◌++◌, ◌==◌, get_or, set, length,
  length-append, drop, take, ◌≡◌, ◌≢◌, inl, inr, refl, sym, ap, ◌∙◌, arith, All, Bool-cases,
}
use mathlib.Core.Path.{subst}
use onchain_exchange_homewor.MerkleTree.Types.{Hash, bytes_eq}
use onchain_exchange_homewor.MerkleTree.Hashing.Caching.{bytes_eq_sound}
use onchain_exchange_homewor.SparseTree.Types.{
  Pair, Node, empty_hash, Store, Result, ok, Run, continue, ◌>>=◌, pure,
}
use onchain_exchange_homewor.SparseTree.Nodes.{byte_at}
use onchain_exchange_homewor.SparseTree.Nodes.Stored.{Below, value_at}
use onchain_exchange_homewor.SparseTree.Nodes.Reads.{
  Below-next, IsCollisionFree, IsContent, value_at-Extends,
}
use onchain_exchange_homewor.SparseTree.Update.{run_of, Left, distribute}
use onchain_exchange_homewor.SparseTree.Update.Sorted.{after, run_of-append_drop}
use onchain_exchange_homewor.SparseTree.Update.Collapse.{AreStored}
use onchain_exchange_homewor.SparseTree.Update.Spread.{
  take-append, drop-append, get_or-set_same, get_or-set_other, Leaves,
}

-- Pairs with another byte than a key write nothing to it.
after_other :
    (depth idx : ℕ) (key : List ℕ) (old : Option (List ℕ)) (xs : List Pair)
    → idx ≢ byte_at depth key
    → All (λ q. byte_at depth q.k ≡ idx) xs
    → after key old xs ≡ old
after_other depth idx key old [] away at = refl
after_other depth idx key old (q ∷ xs) away at = elim (Bool-cases (bytes_eq q.k key)) [
  | inl e ↦ absurd (away (sym at.0 ∙ ap (byte_at depth) (bytes_eq_sound q.k key e)))
  | inr e ↦ rw e (after_other depth idx key old xs away at.1)
]

pub length-drop : {A : Type 0} (n : ℕ) (xs : List A) → length (drop n xs) ≤ length xs
length-drop zero xs = omega arith
length-drop (suc n) [] = omega arith
length-drop (suc n) (x ∷ xs) = omega (arith, length-drop n xs)

-- One round of the loop.
pub distribute_step :
    (below : Hash → List Pair → List Pair → Run (Left Hash)) (depth rounds : ℕ) (cs : List Hash)
    (p : Pair) (xs behind : List Pair) (st : Store) (h : Hash) (mid : Store) (kids : List Hash)
    (new : Store)
    → let idx = byte_at depth p.k in
      let run = run_of depth idx xs in
      let rest = drop (length run) xs in
      below (get_or cs idx empty_hash) (p ∷ run) (rest ++ behind) st
        ≡ (ok (h, p ∷ run, rest ++ behind), mid)
      → distribute below depth rounds (set cs idx h) rest behind mid
        ≡ (ok (kids, rest, behind), new)
      → distribute below depth (suc rounds) cs (p ∷ xs) behind st ≡ (ok (kids, p ∷ xs, behind), new)
unfolding distribute
distribute_step below depth rounds cs p xs behind st h mid kids new e1 e2 =
    let idx = byte_at depth p.k in
    let run = run_of depth idx xs in
    let rest = drop (length run) xs in
    let finish = λ (s : Left (List Hash)). pure (s.0, (p ∷ run) ++ s.1, s.2) in
    ap
      (λ r. continue r (λ l.
        distribute below depth rounds (set cs idx l.0) (take (length rest) l.2)
          (drop (length rest) l.2)
        >>= λ s. pure (s.0, l.1 ++ s.1, s.2)))
      e1
    ∙ ap
        (λ ys.
          continue
            (distribute below depth rounds (set cs idx h) ys (drop (length rest) (rest ++ behind))
              mid)
            finish)
        (take-append rest behind)
    ∙ ap (λ ys. continue (distribute below depth rounds (set cs idx h) rest ys mid) finish)
        (drop-append rest behind)
    ∙ ap (λ r. continue r finish) e2
    ∙ ap (λ ys. (ok (kids, p ∷ ys, behind), new)) (run_of-append_drop depth idx xs)

module _ (node_hash : Node → Hash) (free : IsCollisionFree node_hash) (levels : ℕ)
    (path : List ℕ) where
  -- The values of the children after the update of one of them.
  pub child_values :
      (idx : ℕ) (cs : List Hash) (xs behind : List Pair) (st : Store)
      (r : Result (Left Hash) × Store)
      → idx < 256
      → IsContent node_hash st
      → AreStored node_hash free st levels path cs
      → All (λ q. byte_at (length path) q.k ≡ idx) xs
      → (left : Leaves node_hash levels
          (path ++ (idx ∷ []))
          (λ key. value_at levels st (get_or cs idx empty_hash) key (length (path ++ (idx ∷ []))))
          xs
          behind
          st
          r)
      → (key : List ℕ) → Below path (suc levels) key
      → value_at levels left.1
          (get_or (set cs idx left.0) (byte_at (length path) key) empty_hash)
          key
          (length path + 1)
        ≡ after key
            (value_at levels st
              (get_or cs (byte_at (length path) key) empty_hash)
              key
              (length path + 1))
            xs
  child_values idx cs xs behind st r small content (size, kids) at
        (h, new, e, c, more, stored, values) key below =
      let (byte_small, next) = Below-next path levels key below in
      let i = byte_at (length path) key in
      elim (Bool-cases (idx == i)) [
        | inl e ↦
            let same : idx ≡ i = ground arith in
            ap (λ j. value_at levels new (get_or (set cs idx h) j empty_hash) key (length path + 1))
              (sym same)
            ∙ ap (λ c. value_at levels new c key (length path + 1))
                (get_or-set_same cs idx h empty_hash (omega (arith, size, small)))
            ∙ subst
                (λ d.
                  value_at levels new h key d
                  ≡ after key (value_at levels st (get_or cs idx empty_hash) key d) xs)
                (length-append path (idx ∷ []))
                (values key (subst (λ j. Below (path ++ (j ∷ [])) levels key) (sym same) next))
            ∙ ap
                (λ j.
                  after key (value_at levels st (get_or cs j empty_hash) key (length path + 1)) xs)
                same
        | inr e ↦
            let away : idx ≢ i = λ same. ground (arith, e, same) in
            let child = get_or cs i empty_hash in
            ap (λ c. value_at levels new c key (length path + 1))
              (get_or-set_other cs idx i h empty_hash away)
            ∙ subst (λ d. value_at levels new child key d ≡ value_at levels st child key d)
                (length-append path (i ∷ []))
                (value_at-Extends node_hash free levels st new (path ++ (i ∷ [])) child key content
                  c more (kids i byte_small) next)
            ∙ sym (
                after_other (length path) idx key (value_at levels st child key (length path + 1))
                  xs away at)
      ]
