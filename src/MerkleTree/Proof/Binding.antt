-- ===== src/MerkleTree/Proof/Binding.antt =====
-- What a proof binds: no other root passes with a path of the same shape, unless Blake3 collides;
-- and a list of roots that has the same global root.
use mathlib.Core.Path.{subst}
use mathlib.Core.Option.{some-injective, bind}
use onchain_exchange_homewor.Prelude.{
  ℕ, zero, suc, ◌/◌, ◌<◌, Bool, true, false, Option, none, some, List, [], ◌∷◌, ◌++◌, length, ◌≡◌,
  ◌≢◌, ◌⊎◌, refl, sym, ap, ◌∙◌, arith, inl, inr, Bool-cases, All,
}
use onchain_exchange_homewor.Models.Bytes.{append-cancel}
use onchain_exchange_homewor.MerkleTree.Types.{Hash, bytes_eq, bytes_eq_refl}
use onchain_exchange_homewor.MerkleTree.Hashing.Caching.{bytes_eq_sound}
use onchain_exchange_homewor.MerkleTree.Proof.{
  MerkleProof, next_level, compute_merkle_root, path_step, append_step, path_rounds,
  compute_proof_path, climb, verify,
}
use onchain_exchange_homewor.MerkleTree.Proof.Complete.{at, joined, compute_proof_path-climb}

-- A hash of 32 bytes.
abbrev pub IsHash : Hash → Type 0
IsHash h = length h ≡ 32

at-IsHash : (hs : List Hash) (i : ℕ) → All IsHash hs → IsHash (at hs i)
at-IsHash [] i ok = refl
at-IsHash (h ∷ hs) zero ok = ok.0
at-IsHash (h ∷ hs) (suc i) ok = at-IsHash hs i ok.1

path_step-IsHash :
    (i : ℕ) (hs : List Hash)
    → All IsHash hs
    → (path : List Hash) (flags : List Bool) → All IsHash path
    → All IsHash (append_step (path_step i hs) (path, flags)).0
unfolding path_step
path_step-IsHash i [] ok path flags h = h
path_step-IsHash zero (a ∷ []) ok path flags h = (refl, h)
path_step-IsHash zero (a ∷ b ∷ rest) ok path flags h = (ok.1.0, h)
path_step-IsHash (suc zero) (a ∷ []) ok path flags h = (ok.0, h)
path_step-IsHash (suc zero) (a ∷ b ∷ rest) ok path flags h = (ok.0, h)
path_step-IsHash (suc (suc i)) (a ∷ []) ok path flags h = h
path_step-IsHash (suc (suc i)) (a ∷ b ∷ rest) ok path flags h =
    path_step-IsHash i rest ok.1.1 path flags h

bytes_eq_apart : (u v : List ℕ) → bytes_eq u v ≡ false → u ≢ v
bytes_eq_apart u v other same = let r = bytes_eq_refl u in cc

module _ (blake3 : List ℕ → Hash) where
  -- Two inputs with the same hash.
  abbrev pub Collision : Type 0
  Collision = (u : List ℕ) × (v : List ℕ) × (u ≢ v) × (blake3 u ≡ blake3 v)

  joined-binding :
      (x y h k : Hash) (left : Bool)
      → IsHash x
      → IsHash y
      → IsHash h
      → IsHash k
      → joined blake3 x h left ≡ joined blake3 y k left
      → (x ≡ y) ⊎ Collision
  joined-binding x y h k true p q s t e = elim (Bool-cases (bytes_eq (x ++ h) (y ++ k))) [
    | inl same ↦ inl (append-cancel x y (p ∙ sym q) (bytes_eq_sound (x ++ h) (y ++ k) same)).0
    | inr other ↦ inr (x ++ h, y ++ k, bytes_eq_apart (x ++ h) (y ++ k) other, e)
  ]
  joined-binding x y h k false p q s t e = elim (Bool-cases (bytes_eq (h ++ x) (k ++ y))) [
    | inl same ↦ inl (append-cancel h k (s ∙ sym t) (bytes_eq_sound (h ++ x) (k ++ y) same)).1
    | inr other ↦ inr (h ++ x, k ++ y, bytes_eq_apart (h ++ x) (k ++ y) other, e)
  ]

  verify-climb :
      (proof : MerkleProof)
      → verify blake3 proof ≡ some true
      → climb blake3 proof.tree_root proof.proof_path proof.is_left ≡ some proof.global_root
  unfolding verify bind
  verify-climb proof accepted =
      reached (climb blake3 proof.tree_root proof.proof_path proof.is_left) accepted
    where
      reached :
          (o : Option Hash)
          → bind o (λ current. some (bytes_eq current proof.global_root)) ≡ some true
          → o ≡ some proof.global_root
      reached none e = cc
      reached (some h) e = ap some (bytes_eq_sound h proof.global_root (some-injective _ _ e))

  module _ (sized : (bytes : List ℕ) → IsHash (blake3 bytes)) where
    climb-binding :
        (x y : Hash) (path path' : List Hash) (flags : List Bool) (r : Hash)
        → IsHash x
        → IsHash y
        → All IsHash path
        → All IsHash path'
        → length path ≡ length path'
        → climb blake3 x path flags ≡ some r
        → climb blake3 y path' flags ≡ some r
        → (x ≡ y) ⊎ Collision
    unfolding climb
    climb-binding x y [] [] flags r p q s t same e e' =
        inl (some-injective x r e ∙ sym (some-injective y r e'))
    climb-binding x y [] (k ∷ path') flags r p q s t same e e' = absurd (omega arith)
    climb-binding x y (h ∷ path) [] flags r p q s t same e e' = absurd (omega arith)
    climb-binding x y (h ∷ path) (k ∷ path') [] r p q s t same e e' = cc
    climb-binding x y (h ∷ path) (k ∷ path') (left ∷ flags) r p q s t same e e' =
        let below =
          climb-binding (joined blake3 x h left) (joined blake3 y k left) path path' flags r
            (sized _) (sized _) s.1 t.1 (omega arith) e e' in
        elim below [ inl up ↦ joined-binding x y h k left p q s.0 t.0 up | inr found ↦ inr found ]

    next_level-IsHash : (hs : List Hash) → All IsHash (next_level blake3 hs)
    unfolding next_level
    next_level-IsHash [] = _
    next_level-IsHash (a ∷ []) = (sized _, _)
    next_level-IsHash (a ∷ b ∷ rest) = (sized _, next_level-IsHash rest)

    path_rounds-IsHash :
        (fuel i : ℕ) (hs : List Hash) (path : List Hash) (flags : List Bool)
        → All IsHash hs
        → path_rounds blake3 fuel i hs ≡ some (path, flags)
        → All IsHash path
    unfolding path_rounds bind
    path_rounds-IsHash zero i hs path flags ok e = cc
    path_rounds-IsHash (suc fuel) i [] path flags ok e =
        subst (λ r. All IsHash r.0) (some-injective _ (path, flags) e) _
    path_rounds-IsHash (suc fuel) i (h ∷ []) path flags ok e =
        subst (λ r. All IsHash r.0) (some-injective _ (path, flags) e) _
    path_rounds-IsHash (suc fuel) i (a ∷ b ∷ rest) path flags ok e =
        let next = next_level blake3 (a ∷ b ∷ rest) in
        below (path_rounds blake3 fuel (i / 2) next)
          (λ q fs found.
            path_rounds-IsHash fuel (i / 2) next q fs (next_level-IsHash (a ∷ b ∷ rest)) found)
          e
      where
        below :
            (o : Option (List Hash × List Bool))
            → ((q : List Hash) (fs : List Bool) → o ≡ some (q, fs) → All IsHash q)
            → bind o (λ q. some (append_step (path_step i (a ∷ b ∷ rest)) q)) ≡ some (path, flags)
            → All IsHash path
        below none hashes e = cc
        below (some (q, fs)) hashes e =
            subst (λ r. All IsHash r.0) (some-injective _ (path, flags) e)
              (path_step-IsHash i (a ∷ b ∷ rest) ok q fs (hashes q fs refl))

    -- Where the roots and Blake3's hashes have 32 bytes: a proof of the shape of the one that
    -- `computeProofPath` makes for an index, whose hashes have 32 bytes, is accepted against the
    -- global root only for the root at that index, or two inputs collide under Blake3.
    pub verify-binding :
        (hs : List Hash) (i : ℕ) (proof : MerkleProof) (path : List Hash)
        → All IsHash hs
        → i < length hs
        → compute_merkle_root blake3 hs ≡ some proof.global_root
        → compute_proof_path blake3 hs i ≡ some (path, proof.is_left)
        → length proof.proof_path ≡ length path
        → IsHash proof.tree_root
        → All IsHash proof.proof_path
        → verify blake3 proof ≡ some true
        → (proof.tree_root ≡ at hs i) ⊎ Collision
    unfolding compute_proof_path
    verify-binding hs i proof path ok there root own same p s accepted =
        let (r, path', flags, root', own', climbed) = compute_proof_path-climb blake3 hs i there in
        let same_root : r ≡ proof.global_root = some-injective _ _ (sym root' ∙ root) in
        let same_path : (path', flags) ≡ (path, proof.is_left) =
          some-injective _ _ (sym own' ∙ own) in
        let genuine : climb blake3 (at hs i) path proof.is_left ≡ some proof.global_root =
          sym (ap (λ q. climb blake3 (at hs i) q.0 q.1) same_path) ∙ climbed ∙ ap some same_root in
        climb-binding proof.tree_root (at hs i) proof.proof_path path proof.is_left
          proof.global_root p (at-IsHash hs i ok) s
          (path_rounds-IsHash (suc (length hs)) i hs path proof.is_left ok own) same
          (verify-climb proof accepted) genuine
