-- ===== src/SparseTree/Update.antt =====
-- `updateBatchParallel` of smt-v3/smt.go, on batches of at most 2048 pairs, for which it starts no
-- goroutines. A batch is a part of an array: `xs` are its pairs and `behind` those that follow up to
-- the end of the array. `append` writes the pair behind, if there is one; if not, it takes a new
-- array, with `spare` unused places for a batch of that length.
pub mod Select
pub mod Collapse
pub mod Sorted
pub mod Spread
pub mod Rounds
pub mod Loop
pub mod Correct
pub mod Levels
pub mod Overwrites
use onchain_exchange_homewor.Prelude.{
  ℕ, zero, suc, ◌+◌, Bool, true, false, ◌||◌, Option, none, some, List, [], ◌∷◌, ◌++◌, ◌==◌,
  if◌then◌else◌, length, get_or, set, take, drop, select, replicate, sort_by,
}
use Prim.Native.Nat.{Ordering}
use onchain_exchange_homewor.MerkleTree.Types.{Hash, bytes_eq}
use onchain_exchange_homewor.MerkleTree.Range.{compare_keys}
use onchain_exchange_homewor.SparseTree.Types.{
  empty_hash, Node, internal, leaf, Pair, panic, Result, ok, err, find, load_node, Run, pure, raise,
  ◌>>=◌,
}
use onchain_exchange_homewor.SparseTree.Nodes.{is_active, node_of, children_of, save, byte_at}

-- `bytes.Compare(a, b) < 0`
unfoldable pub key_before : Pair → Pair → Bool
unfolding compare_keys
key_before p q = elim (compare_keys p.k q.k) [
  | Ordering.lt ↦ true
  | Ordering.eq ↦ false
  | Ordering.gt ↦ false
]

-- Whether a key is in a batch.
unfoldable pub has_key : List ℕ → List Pair → Bool
has_key k [] = false
has_key k (p ∷ xs) = bytes_eq p.k k || has_key k xs

-- The pairs at the start of a batch whose keys have a byte at a depth.
unfoldable pub run_of : ℕ → ℕ → List Pair → List Pair
run_of depth idx [] = []
run_of depth idx (p ∷ xs) = if byte_at depth p.k == idx then p ∷ run_of depth idx xs else []

abbrev pub no_children : List Hash
no_children = replicate 256 empty_hash

abbrev pub zero_pair : Pair
zero_pair = record { k = replicate 32 0; v = none }

-- What a batch leaves: a hash or the children, the batch and what is behind it.
abbrev pub Left : Type 0 → Type 0
Left A = A × List Pair × List Pair

-- The loop over the batch: each run of pairs with the same byte goes to the child of that byte. With
-- as many rounds as pairs.
unfoldable pub distribute :
    (Hash → List Pair → List Pair → Run (Left Hash))
    → ℕ
    → ℕ
    → List Hash
    → List Pair
    → List Pair
    → Run (Left (List Hash))
unfolding run_of
distribute below depth rounds children [] behind = pure (children, [], behind)
distribute below depth zero children (p ∷ xs) behind = raise panic
distribute below depth (suc rounds) children (p ∷ xs) behind =
    let idx = byte_at depth p.k in
    let run = run_of depth idx xs in
    let rest = drop (length run) xs in
    below (get_or children idx empty_hash) (p ∷ run) (rest ++ behind) >>= λ r.
    let n = length rest in
    distribute below depth rounds (set children idx r.0) (take n r.2) (drop n r.2) >>= λ s.
    pure (s.0, r.1 ++ s.1, s.2)

-- Of pairs with one key, the last one counts.
abbrev pub last_of : Pair → List Pair → Pair
last_of p [] = p
last_of p (q ∷ xs) = last_of q xs

module _ (node_hash : Node → Hash) where
  -- `storeLeaf`, or nothing for a value of nil.
  unfoldable pub write_pair : Pair → Run Hash
  unfolding save
  write_pair p = elim p.v [ none ↦ pure empty_hash | some v ↦ save node_hash (leaf p.k v) ]

  -- A node with a leaf for its only child is that leaf.
  unfoldable pub collapse_to : List Hash → Hash → Option Node → Run Hash
  unfolding save node_of
  collapse_to children child (some (leaf k v)) = pure child
  collapse_to children child (some (internal bits hashes)) = save node_hash (node_of children)
  collapse_to children child none = save node_hash (node_of children)

  unfoldable pub collapse : List Hash → Run Hash
  unfolding collapse_to save node_of
  collapse children st = elim (select is_active children) [
    | [] ↦ pure empty_hash st
    | child ∷ [] ↦ collapse_to children child (find child st) st
    | a ∷ b ∷ rest ↦ save node_hash (node_of children) st
  ]

  -- The batch at a node with these children.
  unfoldable pub spread :
      (Hash → List Pair → List Pair → Run (Left Hash))
      → ℕ
      → List Hash
      → List Pair
      → List Pair
      → Run (Left Hash)
  unfolding distribute collapse
  spread below depth children xs behind =
      distribute below depth (length xs) children xs behind >>= λ r.
      collapse r.0 >>= λ h. pure (h, r.1, r.2)

  -- The batch where nothing is stored: a single pair makes a leaf.
  unfoldable pub at_empty :
      (Hash → List Pair → List Pair → Run (Left Hash)) → ℕ → List Pair → List Pair → Run (Left Hash)
  unfolding write_pair spread
  at_empty below depth [] behind = pure (empty_hash, [], behind)
  at_empty below depth (p ∷ []) behind = write_pair p >>= λ h. pure (h, p ∷ [], behind)
  at_empty below depth (p ∷ q ∷ xs) behind = spread below depth no_children (p ∷ q ∷ xs) behind

module _ (node_hash : Node → Hash) (spare : ℕ → ℕ) where
  -- A leaf whose key is not in the batch is appended to it, and the batch is sorted.
  unfoldable pub append_pair :
      (Hash → List Pair → List Pair → Run (Left Hash))
      → ℕ
      → Pair
      → List Pair
      → List Pair
      → Run (Left Hash)
  unfolding spread key_before
  append_pair below depth stored xs [] =
      let ys = sort_by key_before (xs ++ (stored ∷ [])) in
      spread node_hash below depth no_children ys (replicate (spare (length xs)) zero_pair) >>= λ r.
      pure (r.0, xs, [])
  append_pair below depth stored xs (overwritten ∷ behind) =
      let ys = sort_by key_before (xs ++ (stored ∷ [])) in
      spread node_hash below depth no_children ys behind >>= λ r.
      pure (r.0, take (length xs) r.1, drop (length xs) r.1 ++ r.2)

  -- The batch at a node that is stored.
  unfoldable pub at_stored :
      (Hash → List Pair → List Pair → Run (Left Hash))
      → ℕ
      → Result Node
      → List Pair
      → List Pair
      → Run (Left Hash)
  unfolding spread append_pair has_key children_of
  at_stored below depth (ok (internal bits hashes)) xs behind =
      spread node_hash below depth (children_of bits hashes) xs behind
  at_stored below depth (ok (leaf k v)) xs behind =
      if has_key k xs
      then spread node_hash below depth no_children xs behind
      else append_pair below depth (record { k = k; v = some v }) xs behind
  at_stored below depth (err e) xs behind = raise e

  -- `updateBatchParallel`, with the levels that are left.
  unfoldable pub update_batch : ℕ → ℕ → Hash → List Pair → List Pair → Run (Left Hash)
  unfolding write_pair at_empty at_stored load_node
  update_batch levels depth root [] behind st = pure (root, [], behind) st
  update_batch zero depth root (p ∷ xs) behind st =
      (write_pair node_hash (last_of p xs) >>= λ h. pure (h, p ∷ xs, behind)) st
  update_batch (suc levels) depth root (p ∷ xs) behind st =
      let below = update_batch levels (depth + 1) in
      if bytes_eq root empty_hash
      then at_empty node_hash below depth (p ∷ xs) behind st
      else at_stored below depth (load_node st root) (p ∷ xs) behind st
