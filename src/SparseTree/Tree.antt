-- ===== src/SparseTree/Tree.antt =====
-- `SMT` of smt-v3/smt.go without a cache (`cacheSize` of 0), over a `MemoryStore`: the updates that
-- are pending and the root that is committed.
pub mod Valid
pub mod Laws
pub mod Held
pub mod Unique
pub mod Roots
use onchain_exchange_homewor.Prelude.{
  ℕ, Option, none, some, List, [], ◌∷◌, ◌++◌, take, replicate, sort_by,
}
use onchain_exchange_homewor.MerkleTree.Types.{Hash}
use onchain_exchange_homewor.SparseTree.Types.{
  empty_hash, Node, Pair, key_deleted, Result, ok, err, BytesMap, find, put, Store,
}
use onchain_exchange_homewor.SparseTree.Nodes.{get_at}
use onchain_exchange_homewor.SparseTree.Update.{key_before, Left, update_batch}

-- `toArray`
abbrev pub to_array : List ℕ → List ℕ
to_array b = take 32 (b ++ replicate 32 0)

-- `SMT`; a pending value of `none` is nil.
pub record Smt : Type 0 where
  pub store : Store
  pub root : Hash
  pub pending : BytesMap (Option (List ℕ))

-- `NewSMT`
abbrev pub new_smt : Store → Smt
new_smt st = record { store = st; root = empty_hash; pending = [] }

abbrev pub get_pending : Option (Option (List ℕ)) → Result (List ℕ) → Result (List ℕ)
get_pending (some none) committed = err key_deleted
get_pending (some (some v)) committed = ok v
get_pending none committed = committed

-- `Get`
unfoldable pub get : Smt → List ℕ → Result (List ℕ)
unfolding get_at
get s key = let k = to_array key in get_pending (find k s.pending) (get_at 32 s.store s.root k 0)

-- `Set`
unfoldable pub set : Smt → List ℕ → Option (List ℕ) → Smt
set s key value = record {
  store = s.store;
  root = s.root;
  pending = put (to_array key) value s.pending;
}

-- `LoadRoot`
unfoldable pub load_root : Smt → Hash → Smt
load_root s root = record { store = s.store; root = root; pending = s.pending }

-- The batch of the updates that are pending.
abbrev pub pairs_of : BytesMap (Option (List ℕ)) → List Pair
pairs_of [] = []
pairs_of ((k, v) ∷ m) = record { k = k; v = v } ∷ pairs_of m

-- The new root, unless there was an error; the store keeps what was written.
abbrev pub adopt : Smt → BytesMap (Option (List ℕ)) → Result (Left Hash) × Store → Result Hash × Smt
adopt s pending (ok left, st) = (ok left.0, record { store = st; root = left.0; pending = pending })
adopt s pending (err e, st) = (err e, record { store = st; root = s.root; pending = s.pending })

module _ (node_hash : Node → Hash) (spare : ℕ → ℕ) where
  -- `Update`
  unfoldable pub update : Smt → List ℕ → Option (List ℕ) → Result Hash × Smt
  unfolding update_batch
  update s key value =
      let batch = record { k = to_array key; v = value } ∷ [] in
      adopt s s.pending (update_batch node_hash spare 32 0 s.root batch [] s.store)

  commit_pairs : Smt → List Pair → Result Hash × Smt
  unfolding update_batch key_before
  commit_pairs s [] = (ok s.root, s)
  commit_pairs s (p ∷ batch) =
      let xs = sort_by key_before (p ∷ batch) in
      adopt s [] (update_batch node_hash spare 32 0 s.root xs [] s.store)

  -- `Commit`
  unfoldable pub commit : Smt → Result Hash × Smt
  unfolding commit_pairs update_batch
  commit s = commit_pairs s (pairs_of s.pending)
