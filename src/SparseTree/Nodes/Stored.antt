-- ===== src/SparseTree/Nodes/Stored.antt =====
-- What a store of smt-v3/smt.go holds below a root: every node under its hash, keys of leaves below
-- their paths, and 256 children to an internal node.
use onchain_exchange_homewor.Prelude.{
  ℕ, zero, suc, ◌<◌, Bool, true, false, Option, none, some, List, [], ◌∷◌, ◌++◌, if◌then◌else◌,
  get_or, length, select, map, ◌≡◌, ◌≢◌, ◌⊎◌, inl, inr, refl, sym, ap, ◌∙◌, arith, All, Bool-cases,
}
use onchain_exchange_homewor.MerkleTree.Types.{Hash, bytes_eq, bytes_eq_refl}
use onchain_exchange_homewor.MerkleTree.Hashing.Caching.{bytes_eq_sound}
use onchain_exchange_homewor.SparseTree.Types.{
  empty_hash, Node, internal, leaf, Result, value_of, find, put, delete_key, Store,
}
use onchain_exchange_homewor.SparseTree.Nodes.{
  is_active, node_of, children_of, rank, at_child, get_at,
}

-- A key with the bytes of a path and so many bytes more.
abbrev pub Below : List ℕ → ℕ → List ℕ → Type 0
Below path levels k =
    (rest : List ℕ) × (k ≡ path ++ rest) × (length rest ≡ levels) × All (λ b. b < 256) rest

abbrev pub Extends : Store → Store → Type 0
Extends st new = (h : Hash) (n : Node) → find h st ≡ some n → find h new ≡ some n

abbrev pub IsLeafAt : Store → ℕ → List ℕ → Hash → Type 0
IsLeafAt st levels path root =
    (k : List ℕ) × (v : List ℕ) × (find root st ≡ some (leaf k v)) × Below path levels k

-- A node has two children, or an internal node for a child.
abbrev pub IsBranching : Store → List Hash → Type 0
IsBranching st cs =
    ((i : ℕ) × (j : ℕ) × (i ≢ j)
      × (i < 256)
      × (j < 256)
      × (bytes_eq (get_or cs i empty_hash) empty_hash ≡ false)
      × (bytes_eq (get_or cs j empty_hash) empty_hash ≡ false))
    ⊎ ((i : ℕ) × (bits : List Bool) × (hashes : List Hash) × (i < 256)
        × (find (get_or cs i empty_hash) st ≡ some (internal bits hashes)))

abbrev pub IsStored : Store → ℕ → List ℕ → Hash → Type 0
IsStored st zero path root = (root ≡ empty_hash) ⊎ IsLeafAt st zero path root
IsStored st (suc levels) path root =
    (root ≡ empty_hash)
    ⊎ (IsLeafAt st (suc levels) path root
        ⊎ ((children : List Hash) × (find root st ≡ some (node_of children))
            × (length children ≡ 256)
            × IsBranching st children
            × ((i : ℕ)
                → i < 256
                → IsStored st levels (path ++ (i ∷ [])) (get_or children i empty_hash))))

-- The value of a key below a root, if it has one.
abbrev pub value_at : ℕ → Store → Hash → List ℕ → ℕ → Option (List ℕ)
value_at levels st root key depth = value_of (get_at levels st root key depth)

pub IsStored-empty_hash :
    (st : Store) (levels : ℕ) (path : List ℕ) → IsStored st levels path empty_hash
IsStored-empty_hash st zero path = inl refl
IsStored-empty_hash st (suc levels) path = inl refl

pub IsLeafAt-IsStored :
    (st : Store) (levels : ℕ) (path : List ℕ) (root : Hash)
    → IsLeafAt st levels path root
    → IsStored st levels path root
IsLeafAt-IsStored st zero path root at = inr at
IsLeafAt-IsStored st (suc levels) path root at = inr (inl at)

pub IsBranching-Extends :
    (st new : Store) (cs : List Hash) → Extends st new → IsBranching st cs → IsBranching new cs
IsBranching-Extends st new cs more (inl two) = inl two
IsBranching-Extends st new cs more (inr (i, bits, hashes, small, at)) =
    inr (i, bits, hashes, small, more (get_or cs i empty_hash) (internal bits hashes) at)

-- What is stored stays so when the store grows.
pub IsStored-Extends :
    (st new : Store) (levels : ℕ) (path : List ℕ) (root : Hash)
    → Extends st new
    → IsStored st levels path root
    → IsStored new levels path root
IsStored-Extends st new zero path root more (inl e) = inl e
IsStored-Extends st new zero path root more (inr (k, v, at, below)) =
    inr (k, v, more root (leaf k v) at, below)
IsStored-Extends st new (suc levels) path root more (inl e) = inl e
IsStored-Extends st new (suc levels) path root more (inr (inl (k, v, at, below))) =
    inr (inl (k, v, more root (leaf k v) at, below))
IsStored-Extends st new (suc levels) path root more (inr (inr (cs, at, n, branching, kids))) = inr (
    inr (
      cs,
      more root (node_of cs) at,
      n,
      IsBranching-Extends st new cs more branching,
      λ i h.
          IsStored-Extends st new levels (path ++ (i ∷ [])) (get_or cs i empty_hash) more
            (kids i h),
    ))

pub find-put :
    {V : Type 0} (i h : List ℕ) (n : V) (m : List (List ℕ × V))
    → find h (put i n m) ≡ (if bytes_eq i h then some n else find h m)
find-put i h n [] = refl
find-put i h n ((j, w) ∷ m) = elim (Bool-cases (bytes_eq j i)) [
  | inl e ↦
      let same = bytes_eq_sound j i e in
      let ih = find-put i h n m in rw (same, bytes_eq_refl i) (ground arith)
  | inr e ↦ rw e (elim (Bool-cases (bytes_eq i h)) [
    | inl a ↦
        let same = bytes_eq_sound i h a in
        let ih = find-put i h n m in
        rw (sym same, e, bytes_eq_refl i) (ih ∙ rw (sym same, bytes_eq_refl i) refl)
    | inr a ↦ let ih = find-put i h n m in rw (ih, a) refl
  ])
]

pub find-put_same :
    {V : Type 0} (i h : List ℕ) (n : V) (m : List (List ℕ × V))
    → bytes_eq i h ≡ true
    → find h (put i n m) ≡ some n
find-put_same i h n m e = find-put i h n m ∙ rw e refl

pub find-put_other :
    {V : Type 0} (i h : List ℕ) (n : V) (m : List (List ℕ × V))
    → bytes_eq i h ≡ false
    → find h (put i n m) ≡ find h m
find-put_other i h n m e = find-put i h n m ∙ rw e refl

pub find-delete_key :
    {V : Type 0} (i k : List ℕ) (m : List (List ℕ × V))
    → find k (delete_key i m) ≡ (if bytes_eq i k then none else find k m)
find-delete_key i k [] = ground arith
find-delete_key i k ((j, v) ∷ m) = elim (Bool-cases (bytes_eq j i)) [
  | inl e ↦
      let same = bytes_eq_sound j i e in
      let ih = find-delete_key i k m in rw (e, ap (λ h. bytes_eq h k) same) (ground (arith, ih))
  | inr e ↦ rw e (elim (Bool-cases (bytes_eq i k)) [
    | inl a ↦
        let ih = find-delete_key i k m ∙ ap (λ b. if b then none else find k m) a in
        rw (a, sym (ap (bytes_eq j) (bytes_eq_sound i k a)) ∙ e) ih
    | inr a ↦
        let ih = find-delete_key i k m ∙ ap (λ b. if b then none else find k m) a in
        rw a (ap (λ o. if bytes_eq j k then some v else o) ih)
  ])
]

-- The node of some children has those children.
pub children_of-node_of :
    (cs : List Hash) → children_of (map is_active cs) (select is_active cs) ≡ cs
unfolding children_of
children_of-node_of [] = refl
children_of-node_of (c ∷ cs) = elim (Bool-cases (bytes_eq c empty_hash)) [
  | inl e ↦ rw e (
      ap (◌∷◌ empty_hash) (children_of-node_of cs)
      ∙ ap (λ h. h ∷ cs) (sym (bytes_eq_sound c empty_hash e)))
  | inr e ↦ rw e (ap (◌∷◌ c) (children_of-node_of cs))
]

-- The rank of a byte leads to the child for it.
pub at_child-node_of :
    (below : Hash → Result (List ℕ)) (cs : List Hash) (i : ℕ)
    → value_of (at_child below (map is_active cs) (select is_active cs) i) ≡ (
        if is_active (get_or cs i empty_hash)
        then value_of (below (get_or cs i empty_hash))
        else none)
unfolding at_child rank bytes_eq
at_child-node_of below [] i = refl
at_child-node_of below (c ∷ cs) zero = elim (Bool-cases (bytes_eq c empty_hash)) [
  | inl e ↦ rw e refl
  | inr e ↦ rw e refl
]
at_child-node_of below (c ∷ cs) (suc i) = elim (Bool-cases (bytes_eq c empty_hash)) [
  | inl e ↦ rw e (at_child-node_of below cs i)
  | inr e ↦ rw e (at_child-node_of below cs i)
]
