-- ===== src/MerkleTree/Proof/Padding.antt =====
-- Lists of roots that have the same global root: the zero hash that fills up a level is also the
-- root of a tree without items.
use onchain_exchange_homewor.Prelude.{
  ℕ, zero, suc, ◌+◌, ◌-◌, ◌%◌, ◌<◌, ◌≤◌, List, [], ◌∷◌, ◌++◌, length, length-append, ◌≡◌, refl, sym,
  ap, ◌∙◌, arith,
}
use onchain_exchange_homewor.MerkleTree.Types.{Hash, zero_hash}
use onchain_exchange_homewor.MerkleTree.Proof.{next_level, root_rounds, compute_merkle_root}
use onchain_exchange_homewor.MerkleTree.Proof.Complete.{length-next_level}

module _ (blake3 : List ℕ → Hash) where
  -- More fuel changes nothing.
  root_rounds-suc :
      (fuel : ℕ) (hs : List Hash)
      → length hs ≤ fuel
      → 1 ≤ fuel
      → root_rounds blake3 (suc fuel) hs ≡ root_rounds blake3 fuel hs
  unfolding root_rounds
  root_rounds-suc zero hs enough pos = absurd (omega arith)
  root_rounds-suc (suc fuel) [] enough pos = refl
  root_rounds-suc (suc fuel) (h ∷ []) enough pos = refl
  root_rounds-suc (suc fuel) (a ∷ b ∷ rest) enough pos =
      let shorter = length-next_level blake3 (a ∷ b ∷ rest) in
      root_rounds-suc fuel (next_level blake3 (a ∷ b ∷ rest)) (omega (arith, shorter)) (omega arith)

  next_level-zero_hash :
      (hs : List Hash)
      → length hs % 2 ≡ 1
      → next_level blake3 (hs ++ (zero_hash ∷ [])) ≡ next_level blake3 hs
  unfolding next_level
  next_level-zero_hash [] odd = absurd (omega arith)
  next_level-zero_hash (a ∷ []) odd = refl
  next_level-zero_hash (a ∷ b ∷ rest) odd =
      ap (◌∷◌ (blake3 (a ++ b))) (next_level-zero_hash rest (omega arith))

  -- Behind an odd number of roots, more than one, another root that is the zero hash changes nothing
  -- of the global root.
  pub compute_merkle_root-zero_hash :
      (hs : List Hash)
      → length hs % 2 ≡ 1
      → 1 < length hs
      → compute_merkle_root blake3 (hs ++ (zero_hash ∷ [])) ≡ compute_merkle_root blake3 hs
  unfolding compute_merkle_root root_rounds
  compute_merkle_root-zero_hash [] odd many = absurd (omega arith)
  compute_merkle_root-zero_hash (a ∷ []) odd many = absurd (omega arith)
  compute_merkle_root-zero_hash (a ∷ b ∷ rest) odd many =
      let hs : List Hash = a ∷ b ∷ rest in
      let n = length hs in
      let shorter = length-next_level blake3 hs in
      let longer = length-append hs (zero_hash ∷ []) in
      ap (λ k. root_rounds blake3 k (next_level blake3 (hs ++ (zero_hash ∷ []))))
        (let e : length (hs ++ (zero_hash ∷ [])) ≡ suc n = omega (arith, longer) in e)
      ∙ ap (root_rounds blake3 (suc n)) (next_level-zero_hash hs odd)
      ∙ root_rounds-suc n (next_level blake3 hs) (omega (arith, shorter)) (omega arith)

  root_rounds-more :
      (extra fuel : ℕ) (hs : List Hash)
      → length hs ≤ fuel
      → 1 ≤ fuel
      → root_rounds blake3 (extra + fuel) hs ≡ root_rounds blake3 fuel hs
  root_rounds-more zero fuel hs enough pos =
      ap (λ k. root_rounds blake3 k hs) (let e : 0 + fuel ≡ fuel = omega arith in e)
  root_rounds-more (suc extra) fuel hs enough pos =
      ap (λ k. root_rounds blake3 k hs)
        (let e : suc extra + fuel ≡ suc (extra + fuel) = omega arith in e)
      ∙ root_rounds-suc (extra + fuel) hs (omega arith) (omega arith)
      ∙ root_rounds-more extra fuel hs enough pos

  -- The hashes of the pairs of a list of two roots or more, taken as roots, have the same global
  -- root.
  pub compute_merkle_root-next_level :
      (hs : List Hash)
      → 1 < length hs
      → compute_merkle_root blake3 (next_level blake3 hs) ≡ compute_merkle_root blake3 hs
  unfolding compute_merkle_root root_rounds
  compute_merkle_root-next_level [] many = absurd (omega arith)
  compute_merkle_root-next_level (a ∷ []) many = absurd (omega arith)
  compute_merkle_root-next_level (a ∷ b ∷ rest) many =
      let hs : List Hash = a ∷ b ∷ rest in
      let next = next_level blake3 hs in
      let shorter = length-next_level blake3 hs in
      let fits : (length hs - suc (length next)) + suc (length next) ≡ length hs =
        omega (arith, shorter) in
      sym (
        root_rounds-more (length hs - suc (length next)) (suc (length next)) next (omega arith)
          (omega arith))
      ∙ ap (λ k. root_rounds blake3 k next) fits
