-- ===== src/MerkleTree/Tests/Proofs.antt =====
-- The theorems on proofs, for three roots and a function in place of Blake3 that keeps the first 32
-- bytes.
use onchain_exchange_homewor.Prelude.{
  zero, suc, ap, ℕ, Bool, true, false, some, List, [], ◌∷◌, ◌++◌, ◌≡◌, ◌⊎◌, refl, arith, replicate,
  length,
}
use mathlib.Core.Option.{bind}
use onchain_exchange_homewor.MerkleTree.Types.{Hash, zero_hash, bytes_eq}
use onchain_exchange_homewor.MerkleTree.Proof.{
  MerkleProof, compute_merkle_root, compute_proof_path, verify,
}
use onchain_exchange_homewor.MerkleTree.Proof.Complete.{at, compute_proof_path-verify}
use onchain_exchange_homewor.MerkleTree.Proof.Binding.{Collision, verify-binding}
use onchain_exchange_homewor.MerkleTree.Proof.Padding.{compute_merkle_root-zero_hash}

abbrev padded : ℕ → List ℕ → List ℕ
padded zero bytes = []
padded (suc n) [] = 0 ∷ padded n []
padded (suc n) (b ∷ bytes) = b ∷ padded n bytes

abbrev pub first_32 : List ℕ → Hash
first_32 bytes = padded 32 bytes

length-padded : (n : ℕ) (bytes : List ℕ) → length (padded n bytes) ≡ n
length-padded zero bytes = refl
length-padded (suc n) [] = ap suc (length-padded n [])
length-padded (suc n) (b ∷ bytes) = ap suc (length-padded n bytes)

abbrev roots : List Hash
roots = replicate 32 1 ∷ replicate 32 2 ∷ replicate 32 3 ∷ []

compute_proof_path-verify_example :
    (r : Hash) × (path : List Hash) × (flags : List Bool) × (compute_merkle_root first_32 roots
      ≡ some r)
    × (compute_proof_path first_32 roots 2 ≡ some (path, flags))
    × (verify first_32
          (record { tree_root = at roots 2; proof_path = path; is_left = flags; global_root = r })
        ≡ some true)
compute_proof_path-verify_example = compute_proof_path-verify first_32 roots 2 (omega arith)

-- The proof for the third root.
abbrev proof : MerkleProof
proof = record {
  tree_root = replicate 32 3;
  proof_path = zero_hash ∷ replicate 32 1 ∷ [];
  is_left = true ∷ false ∷ [];
  global_root = replicate 32 1;
}

proof_root : compute_merkle_root first_32 roots ≡ some proof.global_root
unfolding compute_merkle_root
proof_root = refl

proof_own : compute_proof_path first_32 roots 2 ≡ some (proof.proof_path, proof.is_left)
unfolding compute_proof_path bind
proof_own = refl

proof_accepted : verify first_32 proof ≡ some true
unfolding verify bytes_eq bind
proof_accepted = refl

verify-binding_example : (proof.tree_root ≡ at roots 2) ⊎ Collision first_32
verify-binding_example =
    verify-binding first_32 (length-padded 32) roots 2 proof proof.proof_path
      (refl, (refl, (refl, _))) (omega arith) proof_root proof_own refl refl (refl, (refl, _))
      proof_accepted

compute_merkle_root-zero_hash_example :
    compute_merkle_root first_32 (roots ++ (zero_hash ∷ [])) ≡ compute_merkle_root first_32 roots
compute_merkle_root-zero_hash_example =
    compute_merkle_root-zero_hash first_32 roots refl (omega arith)
