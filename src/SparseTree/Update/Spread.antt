-- ===== src/SparseTree/Update/Spread.antt =====
-- The loop of `updateBatchParallel` of smt-v3/smt.go over the runs of a sorted batch, for children
-- that are updated rightly.
use onchain_exchange_homewor.Prelude.{
  ℕ, zero, suc, ◌<◌, ◌≤◌, false, Option, List, [], ◌∷◌, ◌++◌, ◌==◌, get_or, set, length, length-set,
  drop, take, ◌≡◌, ◌≢◌, ◌⊎◌, inl, inr, refl, sym, ap, ◌∙◌, arith, All, All-split, Bool-cases,
  IsSorted,
}
use mathlib.Core.Path.{subst}
use onchain_exchange_homewor.MerkleTree.Types.{Hash}
use onchain_exchange_homewor.SparseTree.Types.{Pair, Node, empty_hash, Store, Result, ok, Run}
use onchain_exchange_homewor.SparseTree.Nodes.{byte_at}
use onchain_exchange_homewor.SparseTree.Nodes.Stored.{
  Below, IsStored, Extends, IsStored-Extends, value_at,
}
use onchain_exchange_homewor.SparseTree.Nodes.Reads.{Below-next, IsCollisionFree, IsContent}
use onchain_exchange_homewor.SparseTree.Update.{key_before, run_of, Left}
use onchain_exchange_homewor.SparseTree.Update.Sorted.{after, run_of-append_drop, byte_at-order}
use onchain_exchange_homewor.SparseTree.Update.Collapse.{AreStored}

module _ {A : Type 0} where
  pub take-append : (xs ys : List A) → take (length xs) (xs ++ ys) ≡ xs
  take-append [] ys = refl
  take-append (x ∷ xs) ys = ap (◌∷◌ x) (take-append xs ys)

  pub drop-append : (xs ys : List A) → drop (length xs) (xs ++ ys) ≡ ys
  drop-append [] ys = refl
  drop-append (x ∷ xs) ys = drop-append xs ys

  pub get_or-set_same :
      (xs : List A) (i : ℕ) (v d : A) → i < length xs → get_or (set xs i v) i d ≡ v
  get_or-set_same [] i v d h = absurd (omega arith)
  get_or-set_same (x ∷ xs) zero v d h = refl
  get_or-set_same (x ∷ xs) (suc i) v d h = get_or-set_same xs i v d (omega arith)

  pub get_or-set_other :
      (xs : List A) (i j : ℕ) (v d : A) → i ≢ j → get_or (set xs i v) j d ≡ get_or xs j d
  get_or-set_other [] i j v d h = refl
  get_or-set_other (x ∷ xs) zero zero v d h = absurd (h refl)
  get_or-set_other (x ∷ xs) zero (suc j) v d h = refl
  get_or-set_other (x ∷ xs) (suc i) zero v d h = refl
  get_or-set_other (x ∷ xs) (suc i) (suc j) v d h = get_or-set_other xs i j v d (λ e. h (ap suc e))

-- The batch of a node: no pair's child has anything stored, or it is a single pair that is alone in
-- its array.
abbrev pub Fits : ℕ → List Hash → List Pair → List Pair → Type 0
Fits depth cs xs behind =
    All (λ p. get_or cs (byte_at depth p.k) empty_hash ≡ empty_hash) xs
    ⊎ ((length xs ≡ 1) × (behind ≡ []))

abbrev pub Ready : Hash → List Pair → List Pair → Type 0
Ready root xs behind = (root ≡ empty_hash) ⊎ ((length xs ≡ 1) × (behind ≡ []))

abbrev pub AreBelow : List ℕ → ℕ → List Pair → Type 0
AreBelow path levels xs = All (λ p. Below path levels p.k) xs

pub Fits-first :
    (depth idx : ℕ) (cs : List Hash) (p : Pair) (xs behind : List Pair)
    → byte_at depth p.k ≡ idx
    → Fits depth cs (p ∷ xs) behind
    → let run = run_of depth idx xs in
      Ready (get_or cs idx empty_hash) (p ∷ run) (drop (length run) xs ++ behind)
unfolding run_of
Fits-first depth idx cs p xs behind at (inl h) =
    inl (ap (λ i. get_or cs i empty_hash) (sym at) ∙ h.0)
Fits-first depth idx cs p [] behind at (inr (one, alone)) = inr (refl, alone)
Fits-first depth idx cs p (q ∷ xs) behind at (inr (one, alone)) = absurd (omega arith)

pub Fits-rest :
    (depth idx : ℕ) (cs : List Hash) (h : Hash) (p : Pair) (xs behind : List Pair)
    → Fits depth cs (p ∷ xs) behind
    → let rest = drop (length (run_of depth idx xs)) xs in
      All (λ q. idx < byte_at depth q.k) rest → Fits depth (set cs idx h) rest behind
unfolding run_of
Fits-rest depth idx cs h p xs behind (inl e) above =
    let run = run_of depth idx xs in
    let P = λ (q : Pair). get_or cs (byte_at depth q.k) empty_hash ≡ empty_hash in
    inl (
      others (drop (length run) xs) above
        (All-split P run (drop (length run) xs)
          (subst (All P) (sym (run_of-append_drop depth idx xs)) e.1)).1)
  where
    others :
        (ys : List Pair)
        → All (λ q. idx < byte_at depth q.k) ys
        → All (λ q. get_or cs (byte_at depth q.k) empty_hash ≡ empty_hash) ys
        → All (λ q. get_or (set cs idx h) (byte_at depth q.k) empty_hash ≡ empty_hash) ys
    others [] a e = tt
    others (q ∷ ys) a e = (
      get_or-set_other cs idx (byte_at depth q.k) h empty_hash (λ s. omega (arith, s, a.0)) ∙ e.0,
      others ys a.1 e.1,
    )
Fits-rest depth idx cs h p [] behind (inr e) above = inl tt
Fits-rest depth idx cs h p (q ∷ xs) behind (inr e) above = absurd (omega (arith, e.0))

-- The pairs of a run are below the child.
pub run-AreBelow :
    (path : List ℕ) (levels idx : ℕ) (xs : List Pair)
    → All (λ q. byte_at (length path) q.k ≡ idx) xs
    → AreBelow path (suc levels) xs
    → AreBelow (path ++ (idx ∷ [])) levels xs
run-AreBelow path levels idx [] at below = tt
run-AreBelow path levels idx (q ∷ xs) at below = (
  subst (λ i. Below (path ++ (i ∷ [])) levels q.k) at.0 (Below-next path levels q.k below.0).1,
  run-AreBelow path levels idx xs at.1 below.1,
)

-- The bytes after the first of a sorted batch are not less.
pub bytes_least :
    (path : List ℕ) (levels : ℕ) (p : Pair) (xs : List Pair)
    → Below path (suc levels) p.k
    → AreBelow path (suc levels) xs
    → All (λ q. key_before q p ≡ false) xs
    → All (λ q. byte_at (length path) p.k ≤ byte_at (length path) q.k) xs
bytes_least path levels p [] b bs s = tt
bytes_least path levels p (q ∷ xs) b bs s =
    (byte_at-order path levels p q b bs.0 s.0, bytes_least path levels p xs b bs.1 s.1)

-- A run that leaves a root, the batch and what is behind it, and for each key the value that the
-- batch writes over the one before.
module _ (node_hash : Node → Hash) where
  abbrev pub Leaves :
      ℕ
      → List ℕ
      → (List ℕ → Option (List ℕ))
      → List Pair
      → List Pair
      → Store
      → Result (Left Hash) × Store
      → Type 0
  Leaves levels path old xs behind st r =
      (h : Hash) × (new : Store) × (r ≡ (ok (h, xs, behind), new))
      × IsContent node_hash new
      × Extends st new
      × IsStored new levels path h
      × ((key : List ℕ)
          → Below path levels key
          → value_at levels new h key (length path) ≡ after key (old key) xs)

  -- What is asked of the update of a child.
  abbrev pub Updates : ℕ → List ℕ → (Hash → List Pair → List Pair → Run (Left Hash)) → Type 0
  Updates levels path update =
      (root : Hash) (xs behind : List Pair) (st : Store)
      → IsContent node_hash st
      → IsStored st levels path root
      → AreBelow path levels xs
      → IsSorted key_before xs
      → Ready root xs behind
      → Leaves levels path (λ key. value_at levels st root key (length path)) xs behind st
          (update root xs behind st)

  module _ (free : IsCollisionFree node_hash) where
    pub set-AreStored :
        (levels : ℕ) (path : List ℕ) (cs : List Hash) (idx : ℕ) (h : Hash) (st new : Store)
        → idx < 256
        → Extends st new
        → AreStored node_hash free st levels path cs
        → IsStored new levels (path ++ (idx ∷ [])) h
        → AreStored node_hash free new levels path (set cs idx h)
    set-AreStored levels path cs idx h st new small more (size, kids) here = (
      length-set cs idx h ∙ size,
      λ i le. elim (Bool-cases (idx == i)) [
        | inl e ↦
            let same : idx ≡ i = ground arith in
            subst (λ j. IsStored new levels (path ++ (j ∷ [])) (get_or (set cs idx h) j empty_hash))
              same
              (subst (IsStored new levels (path ++ (idx ∷ [])))
                (sym (get_or-set_same cs idx h empty_hash (omega (arith, size, small)))) here)
        | inr e ↦
            subst (IsStored new levels (path ++ (i ∷ [])))
              (sym (get_or-set_other cs idx i h empty_hash (λ same. ground (arith, e, same))))
              (IsStored-Extends st new levels (path ++ (i ∷ [])) (get_or cs i empty_hash) more
                (kids i le))
      ],
    )
