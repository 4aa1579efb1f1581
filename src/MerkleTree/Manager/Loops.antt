-- ===== src/MerkleTree/Manager/Loops.antt =====
-- What the loops of `ComputeGlobalRoot` find, and that they keep the roots of the trees.
use onchain_exchange_homewor.Prelude.{
  ℕ, Bool, true, false, not, ◌||◌, Option, none, some, List, [], ◌∷◌, if◌then◌else◌, map, All, ◌≡◌,
  refl, sym, ap, ◌∙◌, inl, inr, Bool-cases,
}
use mathlib.Core.Path.{subst}
use mathlib.Core.Option.{some-injective}
use onchain_exchange_homewor.MerkleTree.Types.{Hash, zero_hash, bytes_eq, bytes_eq_refl}
use onchain_exchange_homewor.MerkleTree.Hashing.Caching.{bytes_eq_sound}
use onchain_exchange_homewor.SparseTree.Types.{BytesMap, find, put}
use onchain_exchange_homewor.SparseTree.Nodes.Stored.{find-put}
use onchain_exchange_homewor.MerkleTree.Manager.Interface.{Trees}
use onchain_exchange_homewor.MerkleTree.Manager.{names_of, is_root, first_check, second_check}

pub names_of-put :
    {V : Type 0} (name : List ℕ) (v w : V) (m : BytesMap V)
    → find name m ≡ some w
    → names_of (put name v m) ≡ names_of m
names_of-put name v w [] e = absurd e
  where
    absurd : none ≡ some w → name ∷ [] ≡ []
    absurd e = cc
names_of-put name v w ((i, x) ∷ m) e = elim (Bool-cases (bytes_eq i name)) [
  | inl a ↦ rw a (ap (λ n. n ∷ names_of m) (sym (bytes_eq_sound i name a)))
  | inr a ↦ rw a (
      ap (λ ns. i ∷ ns)
        (names_of-put name v w m (sym (ap (λ b. if b then some x else find name m) a) ∙ e)))
]

pub All-put :
    {V : Type 0} (P : List ℕ → Type 0) (name : List ℕ) (v : V) (m : BytesMap V)
    → All P (names_of (put name v m))
    → P name
All-put P name v [] h = h.0
All-put P name v ((i, x) ∷ m) h = elim (Bool-cases (bytes_eq i name)) [
  | inl a ↦
      (subst (λ b. All P (names_of (if b then (name, v) ∷ m else (i, x) ∷ put name v m))) a h).0
  | inr a ↦
      All-put P name v m
        (subst (λ b. All P (names_of (if b then (name, v) ∷ m else (i, x) ∷ put name v m))) a h).1
]

pub find-none :
    {V : Type 0} (name : List ℕ) (m : BytesMap V)
    → find name m ≡ none
    → All (λ n. bytes_eq n name ≡ false) (names_of m)
find-none name [] e = tt
find-none name ((i, x) ∷ m) e = elim (Bool-cases (bytes_eq i name)) [
  | inl a ↦ let e' = sym (ap (λ b. if b then some x else find name m) a) ∙ e in cc
  | inr a ↦ (a, find-none name m (sym (ap (λ b. if b then some x else find name m) a) ∙ e))
]

-- The root under a name.
abbrev pub root_in : List ℕ → BytesMap Hash → Hash
root_in name [] = zero_hash
root_in name ((i, h) ∷ s) = if bytes_eq i name then h else root_in name s

-- The roots that are cached for these names are those of the trees.
abbrev pub AreCached : BytesMap Hash → BytesMap Hash → List (List ℕ) → Type 0
AreCached cache s names = All (λ n. find n cache ≡ some (root_in n s)) names

cached_more :
    (cache : BytesMap Hash) (name : List ℕ) (r : Hash) (s : BytesMap Hash) (names : List (List ℕ))
    → find name cache ≡ some r
    → AreCached cache s names
    → AreCached cache ((name, r) ∷ s) names
cached_more cache name r s [] e h = tt
cached_more cache name r s (n ∷ names) e h = (
  elim (Bool-cases (bytes_eq name n)) [
    | inl a ↦ rw a (sym (ap (λ i. find i cache) (bytes_eq_sound name n a)) ∙ e)
    | inr a ↦ rw a h.0
  ],
  cached_more cache name r s names e h.1,
)

root_in-find :
    (name : List ℕ) (h : Hash) (s : BytesMap Hash) → find name s ≡ some h → root_in name s ≡ h
root_in-find name h [] e = cc
root_in-find name h ((i, x) ∷ s) e = elim (Bool-cases (bytes_eq i name)) [
  | inl a ↦ rw a (some-injective x h (sym (ap (λ b. if b then some x else find name s) a) ∙ e))
  | inr a ↦ rw a (root_in-find name h s (sym (ap (λ b. if b then some x else find name s) a) ∙ e))
]

cached_found :
    (cache : BytesMap Hash) (name : List ℕ) (r : Hash) (s : BytesMap Hash)
    → find name cache ≡ some r
    → AreCached cache s (names_of s)
    → AreCached cache ((name, r) ∷ s) (name ∷ names_of s)
cached_found cache name r s e h =
    (rw (bytes_eq_refl name) e, cached_more cache name r s (names_of s) e h)

pub map-root_in :
    (cache s : BytesMap Hash) (names : List (List ℕ))
    → AreCached cache s names
    → map (λ n. root_in n cache) names ≡ map (λ n. root_in n s) names
map-root_in cache s [] h = refl
map-root_in cache s (n ∷ names) h =
    let first = root_in-find n _ cache h.0 in
    let rest = map-root_in cache s names h.1 in rw (first, rest) refl

module _ {T : Type 0} (ops : Trees T) (blake3 : List ℕ → Hash) where
  open ops use {Tree, compute_root, IsTree, root_of, compute_root_lem}

  -- The root of each tree under its name.
  abbrev pub roots : BytesMap Tree → BytesMap Hash
  roots [] = []
  roots ((name, t) ∷ ts) = (name, root_of t) ∷ roots ts

  abbrev pub AllTrees : BytesMap Tree → Type 0
  AllTrees ts = All (λ e. IsTree (e.1)) ts

  -- The trees are there with the same roots.
  abbrev pub AreKept : BytesMap Hash → BytesMap Tree → Type 0
  AreKept s ts = AllTrees ts × (roots ts ≡ s)

  pub AreKept_cons :
      (name : List ℕ) (r : Hash) (t : Tree) (s : BytesMap Hash) (ts : BytesMap Tree)
      → IsTree t
      → root_of t ≡ r
      → AreKept s ts
      → AreKept ((name, r) ∷ s) ((name, t) ∷ ts)
  AreKept_cons name r t s ts is_tree same (trees, kept) =
      ((is_tree, trees), ap (λ r. (name, r) ∷ roots ts) same ∙ ap (λ s. (name, r) ∷ s) kept)

  abbrev pub IsChecked : BytesMap Hash → BytesMap Hash → Bool × BytesMap Tree → Type 0
  IsChecked cache s r = AreKept s r.1 × (r.0 ≡ false → AreCached cache s (names_of s))

  pub first_check-IsChecked :
      (cache : BytesMap Hash) (ts : BytesMap Tree)
      → AllTrees ts
      → IsChecked cache (roots ts) (first_check ops blake3 cache ts)
  unfolding first_check
  first_check-IsChecked cache [] h = ((tt, refl), λ _. tt)
  first_check-IsChecked cache ((name, t) ∷ ts) h =
      choose (first_check-IsChecked cache ts h.1) (find name cache) refl
    where
      choose :
          IsChecked cache (roots ts) (first_check ops blake3 cache ts)
          → (o : Option Hash) → find name cache ≡ o
          → IsChecked cache (roots ((name, t) ∷ ts)) (
              let (actual_root, t') = compute_root t in
              let rest = first_check ops blake3 cache ts in
              elim o [
                | none ↦ (true, (name, t) ∷ ts)
                | some cached_root ↦
                    if bytes_eq actual_root cached_root
                    then (rest.0, (name, t') ∷ rest.1)
                    else (true, (name, t') ∷ ts)
              ])
      choose step none e = ((h, refl), λ e. cc)
      choose step (some c) e =
          let (same, is_tree, kept) = compute_root_lem t h.0 in
          let (rest, cached) = step in
          elim (Bool-cases (bytes_eq (compute_root t).0 c)) [
            | inl a ↦ rw a (
              AreKept_cons name (root_of t) _ _ _ is_tree kept rest,
              λ f.
                  cached_found cache name (root_of t) (roots ts)
                    (e ∙ ap some (sym (bytes_eq_sound _ c a) ∙ same)) (cached f),
            )
            | inr a ↦ rw a (AreKept_cons name (root_of t) _ _ _ is_tree kept (h.1, refl), λ e. cc)
          ]

  -- No root is cached for more names.
  abbrev pub IsNotWider : BytesMap Hash → BytesMap Hash → Type 0
  IsNotWider cache cache' = (n : List ℕ) → find n cache ≡ none → find n cache' ≡ none

  abbrev pub IsRechecked :
      BytesMap Hash → BytesMap Hash → Bool × BytesMap Tree × BytesMap Hash → Type 0
  IsRechecked cache s r =
      AreKept s r.1
      × IsNotWider cache r.2
      × (r.0 ≡ false → (r.2 ≡ cache) × AreCached cache s (names_of s))

  put-IsNotWider :
      (name : List ℕ) (c h : Hash) (cache : BytesMap Hash)
      → find name cache ≡ some c
      → IsNotWider cache (put name h cache)
  put-IsNotWider name c h cache e n f =
      find-put name n h cache ∙ elim (Bool-cases (bytes_eq name n)) [
        | inl a ↦ let same = ap (λ i. find i cache) (bytes_eq_sound name n a) in cc
        | inr a ↦ rw a f
      ]

  pub second_check-IsRechecked :
      (cache : BytesMap Hash) (ts : BytesMap Tree)
      → AllTrees ts
      → IsRechecked cache (roots ts) (second_check ops blake3 cache ts)
  unfolding second_check
  second_check-IsRechecked cache [] h = ((tt, refl), (λ n e. e), λ _. (refl, tt))
  second_check-IsRechecked cache ((name, t) ∷ ts) h =
      choose (λ cache. second_check-IsRechecked cache ts h.1) (find name cache) refl
    where
      choose :
          ((cache : BytesMap Hash)
            → IsRechecked cache (roots ts) (second_check ops blake3 cache ts))
          → (o : Option Hash) → find name cache ≡ o
          → IsRechecked cache (roots ((name, t) ∷ ts)) (
              let (actual_root, t') = compute_root t in
              let same = is_root actual_root o in
              let rest =
                second_check ops blake3 (if same then cache else put name actual_root cache) ts in
              elim o [
                | none ↦ (true, (name, t) ∷ ts, cache)
                | some _ ↦ (not same || rest.0, (name, t') ∷ rest.1, rest.2)
              ])
      choose step none e = ((h, refl), (λ n e. e), λ e. cc)
      choose step (some c) e =
          let (same, is_tree, kept) = compute_root_lem t h.0 in
          elim (Bool-cases (bytes_eq (compute_root t).0 c)) [
            | inl a ↦
                let (rest, narrow, cached) = step cache in
                rw a (
                  AreKept_cons name (root_of t) _ _ _ is_tree kept rest,
                  narrow,
                  λ f. (
                    (cached f).0,
                    cached_found cache name (root_of t) (roots ts)
                        (e ∙ ap some (sym (bytes_eq_sound _ c a) ∙ same)) (cached f).1,
                  ),
                )
            | inr a ↦
                let (rest, narrow, cached) = step (put name (compute_root t).0 cache) in
                rw a (
                  AreKept_cons name (root_of t) _ _ _ is_tree kept rest,
                  (λ n f. narrow n (put-IsNotWider name c _ cache e n f)),
                  λ f. cc,
                )
          ]
