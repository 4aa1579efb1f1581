-- ===== src/MerkleTree/Proof.antt =====
-- mt-manager/merkletree/merkle_proof.go, and `computeMerkleRoot` and `computeProofPath` of
-- mt-manager/merkletree/manager.go: the root over the roots of all trees, and the proof that one of
-- them is among them. The loops over the levels run on fuel; `none` is no fuel left, or an index
-- that is out of range.
pub mod Complete
pub mod Binding
pub mod Padding
use onchain_exchange_homewor.Prelude.{
  ℕ, zero, suc, ◌/◌, Bool, true, false, Option, none, some, List, [], ◌∷◌, ◌++◌, if◌then◌else◌,
  length,
}
use mathlib.Core.Option.{bind as ◌>>=◌}
use onchain_exchange_homewor.MerkleTree.Types.{Hash, zero_hash, bytes_eq}

-- `MerkleProof`, without the name of the tree.
pub record MerkleProof : Type 0 where
  pub tree_root : Hash
  pub proof_path : List Hash
  pub is_left : List Bool
  pub global_root : Hash

-- What the loop over the pairs of a level appends to the path for an index.
unfoldable pub path_step : ℕ → List Hash → Option (Hash × Bool)
path_step i [] = none
path_step zero (left ∷ []) = some (zero_hash, true)
path_step zero (left ∷ right ∷ rest) = some (right, true)
path_step (suc zero) (left ∷ []) = some (left, false)
path_step (suc zero) (left ∷ right ∷ rest) = some (left, false)
path_step (suc (suc i)) (left ∷ []) = none
path_step (suc (suc i)) (left ∷ right ∷ rest) = path_step i rest

abbrev pub append_step : Option (Hash × Bool) → List Hash × List Bool → List Hash × List Bool
append_step none path = path
append_step (some (h, left)) (hs, bs) = (h ∷ hs, left ∷ bs)

module _ (blake3 : List ℕ → Hash) where
  -- `nextLevel`: the hashes of the pairs, the last one perhaps with the zero hash.
  unfoldable pub next_level : List Hash → List Hash
  next_level [] = []
  next_level (left ∷ []) = blake3 (left ++ zero_hash) ∷ []
  next_level (left ∷ right ∷ rest) = blake3 (left ++ right) ∷ next_level rest

  -- The loop of `computeMerkleRoot`.
  unfoldable pub root_rounds : ℕ → List Hash → Option Hash
  unfolding next_level
  root_rounds zero hashes = none
  root_rounds (suc fuel) [] = some zero_hash
  root_rounds (suc fuel) (h ∷ []) = some h
  root_rounds (suc fuel) (left ∷ right ∷ rest) = root_rounds fuel (next_level (left ∷ right ∷ rest))

  -- `computeMerkleRoot`
  unfoldable pub compute_merkle_root : List Hash → Option Hash
  unfolding root_rounds
  compute_merkle_root hashes = root_rounds (suc (length hashes)) hashes

  -- The loop of `computeProofPath`.
  unfoldable pub path_rounds : ℕ → ℕ → List Hash → Option (List Hash × List Bool)
  unfolding path_step next_level
  path_rounds zero i hashes = none
  path_rounds (suc fuel) i [] = some ([], [])
  path_rounds (suc fuel) i (h ∷ []) = some ([], [])
  path_rounds (suc fuel) i (left ∷ right ∷ rest) = do
    path ← path_rounds fuel (i / 2) (next_level (left ∷ right ∷ rest))
    some (append_step (path_step i (left ∷ right ∷ rest)) path)

  -- `computeProofPath`
  unfoldable pub compute_proof_path : List Hash → ℕ → Option (List Hash × List Bool)
  unfolding path_rounds
  compute_proof_path hashes target_index = path_rounds (suc (length hashes)) target_index hashes

  -- The loop of `Verify`.
  unfoldable pub climb : Hash → List Hash → List Bool → Option Hash
  climb current [] bs = some current
  climb current (h ∷ hs) [] = none
  climb current (h ∷ hs) (left ∷ bs) =
      climb (blake3 (if left then current ++ h else h ++ current)) hs bs

  -- `Verify`
  unfoldable pub verify : MerkleProof → Option Bool
  unfolding climb
  verify proof = do
    current ← climb proof.tree_root proof.proof_path proof.is_left
    some (bytes_eq current proof.global_root)
