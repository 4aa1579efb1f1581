-- ===== src/MerkleTree/Manager/Inclusion.antt =====
-- The proof that `GetMerkleProof` makes when the global root has been computed.
use onchain_exchange_homewor.Prelude.{
  ℕ, suc, ◌<◌, false, some, List, [], ◌∷◌, if◌then◌else◌, length, get_or, map, sort_by, All, ◌≡◌,
  ◌⊎◌, refl, sym, ap, ◌∙◌, inl, inr, Bool-cases, sort_by-All, arith,
}
use mathlib.Core.Path.{subst}
use mathlib.Core.Option.{some-injective}
use onchain_exchange_homewor.MerkleTree.Types.{Hash, zero_hash, bytes_eq, bytes_eq_refl}
use onchain_exchange_homewor.MerkleTree.Hashing.Caching.{bytes_eq_sound}
use onchain_exchange_homewor.SparseTree.Types.{BytesMap, find}
use onchain_exchange_homewor.MerkleTree.Manager.Interface.{Trees}
use onchain_exchange_homewor.MerkleTree.Manager.{
  name_before, names_of, index_of, first_check, compute_named,
}
use onchain_exchange_homewor.MerkleTree.Manager.Methods.{roots_of}
use onchain_exchange_homewor.MerkleTree.Manager.Loops.{root_in, AreCached, roots, AllTrees, AreKept}
use onchain_exchange_homewor.MerkleTree.Manager.Collect.{IsNamed, compute_named-IsNamed}
use onchain_exchange_homewor.MerkleTree.Manager.Calls.Names.{AreApart, none-find, bytes_eq_sym}

-- The index of a name, where what is read by name stands.
abbrev pub StandsAt : List ℕ → List (List ℕ) → (List ℕ → Hash) → Type 0
StandsAt name names f =
    (i : ℕ) × (index_of name names ≡ some i)
    × (i < length (map f names))
    × (get_or (map f names) i zero_hash ≡ f name)

index_of-StandsAt :
    (name : List ℕ) (names : List (List ℕ)) (f : List ℕ → Hash)
    → All (λ n. bytes_eq n name ≡ false) names ⊎ StandsAt name names f
index_of-StandsAt name [] f = inl tt
index_of-StandsAt name (n ∷ names) f = elim (Bool-cases (bytes_eq n name)) [
  | inl a ↦ inr (0, rw (a, index_of) refl, omega arith, ap f (bytes_eq_sound n name a))
  | inr a ↦ elim (index_of-StandsAt name names f) [
    | inl none_there ↦ inl (a, none_there)
    | inr (i, e, there, same) ↦
        inr (suc i, rw (a, index_of) (rw (e, index_of) refl), omega (arith, there), same)
  ]
]

root_in_tail :
    (cache : BytesMap Hash) (name : List ℕ) (r : Hash) (s : BytesMap Hash) (names : List (List ℕ))
    → All (λ k. bytes_eq k name ≡ false) names
    → AreCached cache ((name, r) ∷ s) names
    → AreCached cache s names
root_in_tail cache name r s [] others h = tt
root_in_tail cache name r s (n ∷ names) others h =
    let other = bytes_eq_sym name n ∙ others.0 in
    (
      h.0 ∙ ap (λ b. some (if b then r else root_in n s)) other,
      root_in_tail cache name r s names others.1 h.1,
    )

module _ {T : Type 0} (ops : Trees T) (blake3 : List ℕ → Hash) where
  open ops use {Tree, compute_root, IsTree, root_of, compute_root_lem}

  pub roots_of_lem :
      (names : List (List ℕ)) (s : BytesMap Hash) (ts : BytesMap Tree)
      → AreKept ops blake3 s ts
      → ((roots_of ops blake3 names ts).0 ≡ map (λ n. root_in n s) names)
        × AreKept ops blake3 s (roots_of ops blake3 names ts).1
  unfolding roots_of
  roots_of_lem [] s ts h = (refl, h)
  roots_of_lem (name ∷ names) s ts h =
      let (same, kept) =
        subst (λ s. IsNamed ops blake3 name s (compute_named ops blake3 name ts)) h.1
          (compute_named-IsNamed ops blake3 name ts h.0) in
      let (rest, kept') = roots_of_lem names s _ kept in (rw (same, rest) refl, kept')

  -- When every root is cached the loop of `ComputeGlobalRoot` finds so.
  pub first_check_clean :
      (cache : BytesMap Hash) (ts : BytesMap Tree)
      → AllTrees ops blake3 ts
      → AreApart (names_of (roots ops blake3 ts))
      → AreCached cache (roots ops blake3 ts) (names_of (roots ops blake3 ts))
      → (first_check ops blake3 cache ts).0 ≡ false
  unfolding first_check
  first_check_clean cache [] h apart cached = refl
  first_check_clean cache ((name, t) ∷ ts) h apart cached =
      let rest =
        first_check_clean cache ts h.1 apart.1
          (root_in_tail cache name (root_of t) (roots ops blake3 ts) _ apart.0 cached.1) in
      let there : find name cache ≡ some (root_of t) =
        cached.0
        ∙ ap (λ b. some (if b then root_of t else root_in name (roots ops blake3 ts)))
            (bytes_eq_refl name) in
      let actual = (compute_root_lem t h.0).0 in
      rw (there, first_check) (rw (actual, bytes_eq_refl (root_of t)) rest)

  root_in-roots :
      (name : List ℕ) (t : Tree) (ts : BytesMap Tree)
      → find name ts ≡ some t
      → root_in name (roots ops blake3 ts) ≡ root_of t
  root_in-roots name t [] e = cc
  root_in-roots name t ((i, u) ∷ ts) e = elim (Bool-cases (bytes_eq i name)) [
    | inl a ↦
        let same = some-injective u t (sym (ap (λ b. if b then some u else find name ts) a) ∙ e) in
        rw (a, root_in) (ap root_of same)
    | inr a ↦
        let there = sym (ap (λ b. if b then some u else find name ts) a) ∙ e in
        rw (a, root_in) (root_in-roots name t ts there)
  ]

  -- The index of a tree among the names in order, and its root there.
  pub found-StandsAt :
      (name : List ℕ) (t : Tree) (s : BytesMap Hash) (ts : BytesMap Tree)
      → roots ops blake3 ts ≡ s
      → find name ts ≡ some t
      → StandsAt name (sort_by name_before (names_of ts)) (λ n. root_in n s)
        × (root_in name s ≡ root_of t)
  found-StandsAt name t s ts same e = (
    elim (index_of-StandsAt name (sort_by name_before (names_of ts)) (λ n. root_in n s)) [
      | inl none_there ↦
          let missing = none-find name ts (sort_by-All name_before _ (names_of ts) none_there) in cc
      | inr there ↦ there
    ],
    ap (root_in name) (sym same) ∙ root_in-roots name t ts e,
  )
