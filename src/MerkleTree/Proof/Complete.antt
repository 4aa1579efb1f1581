-- ===== src/MerkleTree/Proof/Complete.antt =====
-- The proof of every tree is accepted.
use onchain_exchange_homewor.Prelude.{
  ℕ, zero, suc, ◌+◌, ◌/◌, ◌<◌, ◌≤◌, Bool, true, false, some, List, [], ◌∷◌, ◌++◌, if◌then◌else◌,
  length, get_or, ◌≡◌, refl, sym, ap, ◌∙◌, arith,
}
use mathlib.Core.Option.{bind as ◌>>=◌}
use onchain_exchange_homewor.MerkleTree.Types.{Hash, zero_hash, bytes_eq_refl}
use onchain_exchange_homewor.MerkleTree.Proof.{
  next_level, root_rounds, compute_merkle_root, path_step, path_rounds, compute_proof_path, climb,
  verify,
}

abbrev pub at : List Hash → ℕ → Hash
at hs i = get_or hs i zero_hash

module _ (blake3 : List ℕ → Hash) where
  -- The hash of a node and the one beside it.
  abbrev pub joined : Hash → Hash → Bool → Hash
  joined x h left = blake3 (if left then x ++ h else h ++ x)

  pub length-next_level : (hs : List Hash) → length (next_level blake3 hs) ≡ (length hs + 1) / 2
  unfolding next_level
  length-next_level [] = refl
  length-next_level (a ∷ []) = refl
  length-next_level (a ∷ b ∷ rest) = omega (arith, length-next_level rest)

  -- What the loop over the pairs finds for an index in range.
  abbrev Stepped : ℕ → List Hash → Type 0
  Stepped i hs =
      (h : Hash) × (left : Bool) × (path_step i hs ≡ some (h, left))
      × (at (next_level blake3 hs) (i / 2) ≡ joined (at hs i) h left)

  path_step-Stepped : (i : ℕ) (hs : List Hash) → i < length hs → Stepped i hs
  unfolding path_step next_level
  path_step-Stepped i [] h = absurd (omega arith)
  path_step-Stepped zero (a ∷ []) h = (zero_hash, true, refl, refl)
  path_step-Stepped zero (a ∷ b ∷ rest) h = (b, true, refl, refl)
  path_step-Stepped (suc zero) (a ∷ []) h = absurd (omega arith)
  path_step-Stepped (suc zero) (a ∷ b ∷ rest) h = (a, false, refl, refl)
  path_step-Stepped (suc (suc i)) (a ∷ []) h = absurd (omega arith)
  path_step-Stepped (suc (suc i)) (a ∷ b ∷ rest) h =
      let (s, left, found, up) = path_step-Stepped i rest (omega arith) in
      let half : suc (suc i) / 2 ≡ suc (i / 2) = omega arith in
      (s, left, found, ap (at (blake3 (a ++ b) ∷ next_level blake3 rest)) half ∙ up)

  -- A root, and a path that leads there.
  abbrev pub Proved : ℕ → ℕ → List Hash → Type 0
  Proved fuel i hs =
      (r : Hash) × (path : List Hash) × (flags : List Bool) × (root_rounds blake3 fuel hs ≡ some r)
      × (path_rounds blake3 fuel i hs ≡ some (path, flags))
      × (climb blake3 (at hs i) path flags ≡ some r)
      × (length path ≡ length flags)

  path_rounds-Proved :
      (fuel i : ℕ) (hs : List Hash) → length hs ≤ fuel → i < length hs → Proved fuel i hs
  unfolding root_rounds path_rounds climb ◌>>=◌
  path_rounds-Proved zero i hs enough there = absurd (omega arith)
  path_rounds-Proved (suc fuel) i [] enough there = absurd (omega arith)
  path_rounds-Proved (suc fuel) zero (h ∷ []) enough there = (h, [], [], refl, refl, refl, refl)
  path_rounds-Proved (suc fuel) (suc i) (h ∷ []) enough there = absurd (omega arith)
  path_rounds-Proved (suc fuel) i (a ∷ b ∷ rest) enough there =
      let hs : List Hash = a ∷ b ∷ rest in
      let shorter = length-next_level hs in
      let (s, left, found, up) = path_step-Stepped i hs there in
      let (r, path, flags, root, below, climbed, same) =
        path_rounds-Proved fuel (i / 2) (next_level blake3 hs) (omega (arith, shorter))
          (omega (arith, shorter)) in
      (
        r,
        s ∷ path,
        left ∷ flags,
        root,
        rw below (rw found refl),
        ap (λ x. climb blake3 x path flags) (sym up) ∙ climbed,
        ap suc same,
      )

  -- The same for the whole of `computeProofPath`.
  pub compute_proof_path-climb :
      (hs : List Hash) (i : ℕ)
      → i < length hs
      → (r : Hash) × (path : List Hash) × (flags : List Bool) × (compute_merkle_root blake3 hs
          ≡ some r)
        × (compute_proof_path blake3 hs i ≡ some (path, flags))
        × (climb blake3 (at hs i) path flags ≡ some r)
  unfolding compute_merkle_root compute_proof_path
  compute_proof_path-climb hs i there =
      let (r, path, flags, root, below, climbed, same) =
        path_rounds-Proved (suc (length hs)) i hs (omega arith) there in
      (r, path, flags, root, below, climbed)

  -- For every index of a list of roots, `computeMerkleRoot` and `computeProofPath` end, and `Verify`
  -- accepts the path with the root at the index and the global root.
  pub compute_proof_path-verify :
      (hs : List Hash) (i : ℕ)
      → i < length hs
      → (r : Hash) × (path : List Hash) × (flags : List Bool) × (compute_merkle_root blake3 hs
          ≡ some r)
        × (compute_proof_path blake3 hs i ≡ some (path, flags))
        × (verify blake3
              (record { tree_root = at hs i; proof_path = path; is_left = flags; global_root = r })
            ≡ some true)
  unfolding verify ◌>>=◌
  compute_proof_path-verify hs i there =
      let (r, path, flags, root, below, climbed) = compute_proof_path-climb hs i there in
      (r, path, flags, root, below, rw climbed (ap some (bytes_eq_refl r)))
